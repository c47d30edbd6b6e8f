-- ===== src/Base/Sorting.antt =====
-- Python's stable `sorted` by a Boolean comparison: a permutation of its input, and in order.
use mathlib.Core.Path.{◌≡◌}
use native.Mathlib.Omega.{arith}
use mathlib.Core.Bool.{Bool, true, false}
use mathlib.Core.Logic.{◌↔◌, ◌⊎◌, inl, inr}
use mathlib.Core.List.{List, [], ◌∷◌, Perm}
use mathlib.Core.List.Perm
use ibex.Base.Tests.{if◌then◌else◌, Bool-cases}
use ibex.Base.Lists.{All, Among}

module _ {ℓ} {A : Type ℓ} (le : A → A → Bool) where
  -- In front of the elements that it does not exceed, so equal ones keep their order.
  unfoldable pub insert : A → List A → List A
  insert x [] = x ∷ []
  insert x (y ∷ ys) = if le x y then x ∷ y ∷ ys else y ∷ insert x ys

  unfoldable pub sort : List A → List A
  unfolding insert
  sort [] = []
  sort (x ∷ xs) = insert x (sort xs)

  -- Each element is at most its neighbour.
  abbrev pub IsSorted : List A → Type 0
  IsSorted [] = Unit
  IsSorted (x ∷ []) = Unit
  IsSorted (x ∷ y ∷ ys) = (le x y ≡ true) × IsSorted (y ∷ ys)

  insert-perm : (x : A) (ys : List A) → Perm (insert x ys) (x ∷ ys)
  unfolding insert
  insert-perm x [] = Perm.refl (x ∷ [])
  insert-perm x (y ∷ ys) = elim (Bool-cases (le x y)) [
    | inl e ↦ rw e (Perm.refl (x ∷ y ∷ ys))
    | inr e ↦ rw e (Perm.trans (Perm.cons y (insert-perm x ys)) (Perm.swap x y ys))
  ]

  pub sort-perm : (xs : List A) → Perm (sort xs) xs
  unfolding sort
  sort-perm [] = Perm.refl []
  sort-perm (x ∷ xs) = Perm.trans (insert-perm x (sort xs)) (Perm.cons x (sort-perm xs))

  -- Where the comparison is total on the elements that have `P`.
  module _ {κ} (P : A → Type κ)
      (total : (x y : A) → P x → P y → le x y ≡ false → le y x ≡ true) where
    insert-IsSorted_on :
        (x : A) (ys : List A) → P x → All P ys → IsSorted ys → IsSorted (insert x ys)
    unfolding insert
    insert-IsSorted_on x [] px _ h = tt
    insert-IsSorted_on x (y ∷ []) px (py, _) h = elim (Bool-cases (le x y)) [
      | inl e ↦ rw e (e, tt)
      | inr e ↦ rw e (total x y px py e, tt)
    ]
    insert-IsSorted_on x (y ∷ z ∷ zs) px (py, ps) h = elim (Bool-cases (le x y)) [
      | inl e ↦ rw e (e, h)
      | inr e ↦ rw e (
          behind (total x y px py e) (Bool-cases (le x z))
            (insert-IsSorted_on x (z ∷ zs) px ps h.1))
    ]
      where
        behind :
            le y x ≡ true
            → (le x z ≡ true) ⊎ (le x z ≡ false)
            → IsSorted (insert x (z ∷ zs))
            → IsSorted (y ∷ insert x (z ∷ zs))
        behind yx (inl e) s = rw e (yx, rw e at s)
        behind yx (inr e) s = rw e (h.0, rw e at s)

    All-insert_on : (x : A) (ys : List A) → P x → All P ys → All P (insert x ys)
    unfolding insert
    All-insert_on x [] px _ = (px, tt)
    All-insert_on x (y ∷ ys) px (py, ps) = elim (Bool-cases (le x y)) [
      | inl e ↦ rw e (px, (py, ps))
      | inr e ↦ rw e (py, All-insert_on x ys px ps)
    ]

    sort_on : (xs : List A) → All P xs → All P (sort xs) × IsSorted (sort xs)
    unfolding sort
    sort_on [] h = (tt, tt)
    sort_on (x ∷ xs) (px, ps) =
        let (all, sorted) = sort_on xs ps in
        (All-insert_on x (sort xs) px all, insert-IsSorted_on x (sort xs) px all sorted)

    pub sort-IsSorted_on : (xs : List A) → All P xs → IsSorted (sort xs)
    sort-IsSorted_on xs h = (sort_on xs h).1

  pub sort-IsSorted :
      (total : (x y : A) → le x y ≡ false → le y x ≡ true) (xs : List A) → IsSorted (sort xs)
  sort-IsSorted total xs = sort-IsSorted_on (λ _. Unit {0}) (λ x y _ _. total x y) xs (every xs)
    where
      every : (ys : List A) → All (λ _. Unit {0}) ys
      every [] = tt
      every (y ∷ ys) = (tt, every ys)

-- What holds of each element of the sorted list holds of each element.
module _ {ℓ κ} {A : Type ℓ} (le : A → A → Bool) (P : A → Type κ) where
  All-insert : (x : A) (ys : List A) → All P (insert le x ys) → P x × All P ys
  unfolding insert
  All-insert x [] (p, _) = (p, tt)
  All-insert x (y ∷ ys) h = elim (Bool-cases (le x y)) [
    | inl e ↦ rw (insert, e) at h
    | inr e ↦
        let (q, rest) : P y × All P (insert le x ys) = rw (insert, e) at h in
        let (p, ps) = All-insert x ys rest in (p, (q, ps))
  ]

  pub All-sort : (xs : List A) → All P (sort le xs) → All P xs
  unfolding sort
  All-sort [] h = tt
  All-sort (x ∷ xs) h = let (p, ps) = All-insert x (sort le xs) h in (p, All-sort xs ps)

module _ {A : Type 0} (le : A → A → Bool) where
  Among-insert-cons : (z x : A) (ys : List A) → Among z (x ∷ ys) ↔ Among z (insert le x ys)
  unfolding insert
  Among-insert-cons z x [] = (λ i. i, λ i. i)
  Among-insert-cons z x (y ∷ ys) = elim (Bool-cases (le x y)) [
    | inl e ↦ rw (insert, e) (λ i. i, λ i. i)
    | inr e ↦ rw (insert, e) (swap (Among-insert-cons z x ys))
  ]
    where
      swap :
          (Among z (x ∷ ys) ↔ Among z (insert le x ys))
          → (Among z (x ∷ y ∷ ys) ↔ Among z (y ∷ insert le x ys))
      swap h = grind arith

  pub Among-sort : (z : A) (xs : List A) → Among z xs ↔ Among z (sort le xs)
  unfolding sort
  Among-sort z [] = (λ i. i, λ i. i)
  Among-sort z (x ∷ xs) =
      let (to, from) = Among-insert-cons z x (sort le xs) in
      let (to_rest, from_rest) = Among-sort z xs in
      (
        λ i. elim i [ inl e ↦ to (inl e) | inr j ↦ to (inr (to_rest j)) ],
        λ i. elim (from i) [ inl e ↦ inl e | inr j ↦ inr (from_rest j) ],
      )
