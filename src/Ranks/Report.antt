-- ===== src/Ranks/Report.antt =====
-- `format_average_rank` and the text of a rank; `suspiciousness_key` over an unknown `Decimal`.
use ibex.Base.{
  ℕ, zero, suc, ◌+◌, ◌-◌, ◌*◌, ◌/◌, ◌%◌, ◌||◌, ◌&&◌, Option, none, some, [], ◌∷◌, ◌++◌, ltb,
  nat_eqb, if◌then◌else◌, length,
}
use mathlib.Core.List.{reverse}
use ibex.Base.Text.{Text, codes, strip, str}

-- Python's `decimal.Decimal` of a text, if it is one, and its `==`, without the NaNs: these are not
-- equal to themselves, so a text of a NaN is outside of what is modelled.
pub record Decimals : Type 1 where
  pub Decimal : Type 0
  pub of_text : Text → Option Decimal
  pub discrete : Discrete Decimal

-- A value is `("num", Decimal(value))`, or `("str", value)` where that is no number.
pub data SusKey (D : Decimals) : Type 0 where
  num : D.Decimal → SusKey D
  text : Text → SusKey D

unfoldable pub suspiciousness_key : (D : Decimals) → Text → SusKey D
unfolding strip
suspiciousness_key D value = elim (D.of_text (strip value)) [
  | some d ↦ num d
  | none ↦ text (strip value)
]

-- `s.rstrip(c)`
unfoldable pub drop_while : ℕ → Text → Text
drop_while c [] = []
drop_while c (x ∷ s) = if nat_eqb x c then drop_while c s else x ∷ s

abbrev rstrip_char : ℕ → Text → Text
rstrip_char c s = reverse (drop_while c (reverse s))

-- The nearest millionth, ties to even, as `.6f` rounds an exact quotient.
unfoldable pub millionths : ℕ → ℕ → ℕ
millionths total count =
    let q = total * 1000000 / count in
    let r = total * 1000000 % count in
    if ltb count (2 * r) || nat_eqb count (2 * r) && nat_eqb (q % 2) 1 then q + 1 else q

-- Zeros in front, up to `n` digits.
abbrev pad_zeros : ℕ → Text → Text
pad_zeros zero s = s
pad_zeros (suc n) s = b'0' ∷ pad_zeros n s

-- `Fraction(total, count)` as it is printed.
unfoldable pub format_average_rank : ℕ → ℕ → Text
unfolding millionths str drop_while
format_average_rank total count =
    if nat_eqb (total % count) 0
    then str (total / count)
    else let m = millionths total count in
      let fraction = str (m % 1000000) in
      rstrip_char b'.' (
        rstrip_char b'0'
          (str (m / 1000000) ++ (codes "." ++ pad_zeros (6 - length fraction) fraction)))

-- The rank that is reported: past the end of a ranking of `n`, or an average over a tie.
pub data Report : Type 0 where
  over : ℕ → Report
  top : (total count : ℕ) → Report

-- `f"over top-{n}"` and `f"top-{...}"`
unfoldable pub show_report : Report → Text
unfolding format_average_rank str
show_report (over n) = codes "over top-" ++ str n
show_report (top total count) = codes "top-" ++ format_average_rank total count
