-- ===== src/Base/Decimals.antt =====
-- The decimal print of a number, read back.
use Prim.Native.Nat.{ℕ, zero, suc, ◌+◌, ◌-◌, ◌*◌, ◌/◌, ◌%◌, ◌≤◌, ◌<◌}
use mathlib.Core.Path.{◌≡◌, refl}
use mathlib.Core.Logic.{inl, inr}
use mathlib.Core.Bool.{false}
use mathlib.Core.List.{List, [], ◌∷◌, ◌++◌}
use native.Mathlib.Omega.{arith}
use ibex.Base.Tests.{ltb, ltb→lt, Bool-cases}
use ibex.Base.Lists.{All, All-append}
use ibex.Base.Text.{Text, digits, str}

-- `int` of ASCII digits, behind the number that was read.
unfoldable pub value : ℕ → Text → ℕ
value acc [] = acc
value acc (d ∷ ds) = value (10 * acc + (d - b'0')) ds

-- An ASCII digit, as `[0-9]` has it.
abbrev pub IsDigit : ℕ → Type 0
IsDigit c = (b'0' ≤ c) × (c ≤ b'9')

value-last :
    (acc : ℕ) (ds : List ℕ) (d : ℕ) → value acc (ds ++ (d ∷ [])) ≡ 10 * value acc ds + (d - b'0')
unfolding value
value-last acc [] d = refl
value-last acc (e ∷ ds) d = value-last (10 * acc + (e - b'0')) ds d

value-digits : (fuel n : ℕ) → n < fuel → value 0 (digits fuel n) ≡ n
unfolding digits value
value-digits zero n h = absurd (omega arith)
value-digits (suc fuel) n h = elim (Bool-cases (ltb n 10)) [
  | inl e ↦ rw e (omega arith)
  | inr e ↦
      rw
        (
          e,
          value-last 0 (digits fuel (n / 10)) (b'0' + n % 10),
          value-digits fuel (n / 10) (smaller e),
        )
        (omega arith)
]
  where
    smaller : ltb n 10 ≡ false → n / 10 < fuel
    smaller e = ground arith

digits-All : (fuel n : ℕ) → All IsDigit (digits fuel n)
unfolding digits
digits-All zero n = tt
digits-All (suc fuel) n = elim (Bool-cases (ltb n 10)) [
  | inl e ↦ rw e ((omega arith, omega (arith, ltb→lt n 10 e)), tt)
  | inr e ↦ rw e (
      All-append IsDigit (digits fuel (n / 10)) ((b'0' + n % 10) ∷ []) (digits-All fuel (n / 10))
        ((omega arith, omega arith), tt))
]

pub value-str : (n : ℕ) → value 0 (str n) ≡ n
unfolding str
value-str n = value-digits (suc n) n (omega arith)

pub str-All : (n : ℕ) → All IsDigit (str n)
unfolding str
str-All n = digits-All (suc n) n
