-- ===== src/Base/Sets.antt =====
-- A Python set of numbers, kept as its sorted list.
use Prim.Native.Nat.{ℕ, zero, suc, ◌+◌, ◌≤◌, ◌<◌}
use mathlib.Core.Path.{◌≡◌}
use mathlib.Core.Logic.{◌↔◌, ◌⊎◌, inl}
use mathlib.Core.List.{List, [], ◌∷◌}
use native.Mathlib.Omega.{arith}
use ibex.Base.Tests.{ltb, nat_eqb, if◌then◌else◌}

-- Each number is above `low`, and they ascend.
abbrev pub Above : ℕ → List ℕ → Type 0
Above low [] = Unit
Above low (x ∷ xs) = (low < x) × Above x xs

abbrev pub IsAscending : List ℕ → Type 0
IsAscending [] = Unit
IsAscending (x ∷ xs) = Above x xs

abbrev pub In : ℕ → List ℕ → Type 0
In n [] = ⊥
In n (x ∷ xs) = (n ≡ x) ⊎ In n xs

unfoldable pub add : ℕ → List ℕ → List ℕ
add n [] = n ∷ []
add n (x ∷ xs) = if ltb n x then n ∷ x ∷ xs else if nat_eqb n x then x ∷ xs else x ∷ add n xs

-- `sorted(set(xs))`
unfoldable pub sorted_set : List ℕ → List ℕ
unfolding add
sorted_set [] = []
sorted_set (x ∷ xs) = add x (sorted_set xs)

add-Above : (low n : ℕ) (xs : List ℕ) → low < n → Above low xs → Above low (add n xs)
unfolding add
add-Above low n [] h _ = (h, tt)
add-Above low n (x ∷ xs) h (p, ps) = ground (arith, add-Above x n xs)

pub add-IsAscending : (n : ℕ) (xs : List ℕ) → IsAscending xs → IsAscending (add n xs)
unfolding add
add-IsAscending n [] _ = tt
add-IsAscending n (x ∷ xs) h = ground (arith, add-Above x n xs)

pub sorted_set-IsAscending : (xs : List ℕ) → IsAscending (sorted_set xs)
unfolding sorted_set
sorted_set-IsAscending [] = tt
sorted_set-IsAscending (x ∷ xs) = add-IsAscending x (sorted_set xs) (sorted_set-IsAscending xs)

pub In-add : (m n : ℕ) (xs : List ℕ) → In m (add n xs) ↔ ((m ≡ n) ⊎ In m xs)
unfolding add
In-add m n [] = (λ h. h, λ h. h)
In-add m n (x ∷ xs) = ground (arith, In-add m n xs)

pub In-sorted_set : (m : ℕ) (xs : List ℕ) → In m (sorted_set xs) ↔ In m xs
unfolding sorted_set
In-sorted_set m [] = (λ h. h, λ h. h)
In-sorted_set m (x ∷ xs) = ground (arith, In-add m x (sorted_set xs), In-sorted_set m xs)

-- `range(start, start + count)`
unfoldable pub range : ℕ → ℕ → List ℕ
range start zero = []
range start (suc count) = start ∷ range (suc start) count

pub In-range : (m start count : ℕ) → In m (range start count) ↔ ((start ≤ m) × (m < start + count))
unfolding range
In-range m start zero = ground arith
In-range m start (suc count) = ground (arith, In-range m (suc start) count)

-- `s | set(xs)`
unfoldable pub update : List ℕ → List ℕ → List ℕ
unfolding add
update s [] = s
update s (x ∷ xs) = update (add x s) xs

pub In-update : (m : ℕ) (s xs : List ℕ) → In m (update s xs) ↔ (In m s ⊎ In m xs)
unfolding update
In-update m s [] = (λ h. inl h, λ h. ground arith)
In-update m s (x ∷ xs) = ground (arith, In-update m (add x s) xs, In-add m x s)

pub update-IsAscending : (s xs : List ℕ) → IsAscending s → IsAscending (update s xs)
unfolding update
update-IsAscending s [] h = h
update-IsAscending s (x ∷ xs) h = update-IsAscending (add x s) xs (add-IsAscending x s h)
