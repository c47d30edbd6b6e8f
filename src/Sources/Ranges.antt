-- ===== src/Sources/Ranges.antt =====
-- `compress_line_ranges`
use native.Mathlib.Decide.{ℕ_discrete}
use ibex.Base.{
  ℕ, zero, suc, ◌+◌, ◌-◌, ◌≤◌, ◌<◌, ◌≡◌, ◌≢◌, refl, ap, ◌∙◌, true, false, List, [], ◌∷◌, ◌++◌, map,
  nat_eqb, if◌then◌else◌, string_eq, arith, append_assoc,
}
use ibex.Base.Sets.{sorted_set, range, Above, IsAscending, sorted_set-IsAscending}
use ibex.Base.Text.{Text, codes, join, str}

-- The loop of `compress_line_ranges` over `values[1:]`, with its ranges not yet printed.
unfoldable pub range_pairs : ℕ → ℕ → List ℕ → List (ℕ × ℕ)
range_pairs start previous [] = (start, previous) ∷ []
range_pairs start previous (value ∷ values) = elim (nat_eqb value (previous + 1)) [
  | true ↦ range_pairs start value values
  | false ↦ (start, previous) ∷ range_pairs value value values
]

unfoldable pub line_ranges : List ℕ → List (ℕ × ℕ)
unfolding range_pairs
line_ranges [] = []
line_ranges (value ∷ values) = range_pairs value value values

unfoldable pub show_range : ℕ × ℕ → Text
show_range (start, previous) =
    if nat_eqb start previous then str start else str start ++ (codes "-" ++ str previous)

unfoldable pub compress_line_ranges : List ℕ → Text
unfolding line_ranges show_range sorted_set join
compress_line_ranges lines = join (codes ",") (map show_range (line_ranges (sorted_set lines)))

-- The numbers that ranges stand for.
unfoldable pub expand : List (ℕ × ℕ) → List ℕ
unfolding range
expand [] = []
expand ((start, last) ∷ ranges) = range start (last + 1 - start) ++ expand ranges

-- Each range is not empty, and does not touch the one before it, which ends at `low`.
abbrev pub AreApart : ℕ → List (ℕ × ℕ) → Type 0
AreApart low [] = Unit
AreApart low ((start, last) ∷ ranges) = (low + 1 < start) × (start ≤ last) × AreApart last ranges

abbrev pub IsCompact : List (ℕ × ℕ) → Type 0
IsCompact [] = Unit
IsCompact ((start, last) ∷ ranges) = (start ≤ last) × AreApart last ranges

range-snoc : (start n : ℕ) → range start (suc n) ≡ range start n ++ (start + n) ∷ []
unfolding range
range-snoc start zero = ground arith
range-snoc start (suc n) = ap (◌∷◌ start) (range-snoc (suc start) n ∙ rw (shift start n))
  where
    shift : (a b : ℕ) → suc a + b ≡ a + suc b
    shift a b = omega arith

expand_cons :
    (start last : ℕ) (ranges : List (ℕ × ℕ))
    → expand ((start, last) ∷ ranges) ≡ range start (last + 1 - start) ++ expand ranges
unfolding expand
expand_cons start last ranges = refl

range_pairs_next :
    (start previous value : ℕ) (values : List ℕ)
    → value ≡ previous + 1
    → range_pairs start previous (value ∷ values) ≡ range_pairs start value values
unfolding range_pairs
range_pairs_next start previous value values e = ground arith

range_pairs_gap :
    (start previous value : ℕ) (values : List ℕ)
    → value ≢ previous + 1
    → range_pairs start previous (value ∷ values)
      ≡ (start, previous) ∷ range_pairs value value values
unfolding range_pairs
range_pairs_gap start previous value values e = ground arith

one_range : (value : ℕ) → range value (value + 1 - value) ≡ value ∷ []
unfolding range
one_range value = rw (one value) refl
  where
    one : (v : ℕ) → v + 1 - v ≡ 1
    one v = omega arith

range_pairs-expand :
    (start previous : ℕ) (values : List ℕ)
    → start ≤ previous
    → Above previous values
    → expand (range_pairs start previous values) ≡ range start (previous + 1 - start) ++ values
range_pairs-expand start previous [] le h = unfold expand range_pairs in refl
range_pairs-expand start previous (value ∷ values) le (lt, h) =
    elim (ℕ_discrete value (previous + 1)) [
      | yes e ↦ rw (
        range_pairs_next start previous value values e,
        range_pairs-expand start value values (omega arith) h,
        longer start previous value le e,
        range-snoc start (previous + 1 - start),
        last_one start previous value le e,
        append_assoc,
      )
      | no e ↦ rw (
        range_pairs_gap start previous value values e,
        expand_cons start previous,
        range_pairs-expand value value values (omega arith) h,
        one_range value,
      )
    ]
  where
    longer : (a b v : ℕ) → a ≤ b → v ≡ b + 1 → v + 1 - a ≡ suc (b + 1 - a)
    longer a b v le e = omega arith

    last_one : (a b v : ℕ) → a ≤ b → v ≡ b + 1 → a + (b + 1 - a) ≡ v
    last_one a b v le e = omega arith

range_pairs-AreApart :
    (low start previous : ℕ) (values : List ℕ)
    → low + 1 < start
    → start ≤ previous
    → Above previous values
    → AreApart low (range_pairs start previous values)
range_pairs-AreApart low start previous [] lt le h = unfold range_pairs in (lt, le, tt)
range_pairs-AreApart low start previous (value ∷ values) lt le (gt, h) =
    elim (ℕ_discrete value (previous + 1)) [
      | yes e ↦
          rw (range_pairs_next start previous value values e)
            (range_pairs-AreApart low start value values lt (omega arith) h)
      | no e ↦
          rw (range_pairs_gap start previous value values e)
            (lt, le, range_pairs-AreApart previous value value values (omega arith) (omega arith) h)
    ]

range_pairs-IsCompact :
    (start previous : ℕ) (values : List ℕ)
    → start ≤ previous
    → Above previous values
    → IsCompact (range_pairs start previous values)
range_pairs-IsCompact start previous [] le h = unfold range_pairs in (le, tt)
range_pairs-IsCompact start previous (value ∷ values) le (gt, h) =
    elim (ℕ_discrete value (previous + 1)) [
      | yes e ↦
          rw (range_pairs_next start previous value values e)
            (range_pairs-IsCompact start value values (omega arith) h)
      | no e ↦
          rw (range_pairs_gap start previous value values e)
            (le, range_pairs-AreApart previous value value values (omega arith) (omega arith) h)
    ]

line_ranges_lem :
    (xs : List ℕ) → IsAscending xs → (expand (line_ranges xs) ≡ xs) × IsCompact (line_ranges xs)
unfolding line_ranges
line_ranges_lem [] _ = (unfold expand in refl, tt)
line_ranges_lem (x ∷ xs) h = (
  range_pairs-expand x x xs (omega arith) h ∙ rw (one_range x),
  range_pairs-IsCompact x x xs (omega arith) h,
)

-- The printed ranges stand for exactly the given line numbers, in ascending order and each once,
-- and no two of them overlap or touch, so there are as few ranges as possible.
pub line_ranges-expand :
    (lines : List ℕ)
    → (expand (line_ranges (sorted_set lines)) ≡ sorted_set lines)
      × IsCompact (line_ranges (sorted_set lines))
line_ranges-expand lines = line_ranges_lem (sorted_set lines) (sorted_set-IsAscending lines)
