-- ===== src/Batch/LogParse.antt =====
-- The readers of a logged command in logparse.py.
pub mod RoundTrip
pub mod ReadBack
pub mod Index
use ibex.Base.{
  ℕ, zero, suc, ◌+◌, ◌-◌, ◌≡◌, Bool, true, false, Option, none, some, List, [], ◌∷◌, ◌++◌, length,
  get_elem?, take, drop, contains, if◌then◌else◌, ◌==◌, leb,
}
use mathlib.Core.List.{reverse}
use ibex.Base.Results.{Result, ok, err, ◌>>=◌}
use ibex.Base.Text.{Text, codes, text_eq}
use ibex.Base.Dict.{Dict, lookup}
use ibex.Batch.Validate.{BatchError, no_subcommand, no_mode, no_value, no_option}

-- `argv.index(x)`, where `none` is the ValueError.
unfoldable pub index : Text → List Text → Option ℕ
unfolding text_eq
index x [] = none
index x (y ∷ argv) =
    if y == x then some 0 else elim (index x argv) [ none ↦ none | some i ↦ some (suc i) ]

-- `argv.index(x, start)`
unfoldable pub index_from : Text → ℕ → List Text → Option ℕ
unfolding index
index_from x start argv = elim (index x (drop start argv)) [
  | none ↦ none
  | some i ↦ some (start + i)
]

unfoldable pub option_value : List Text → Text → Option Text → Result BatchError (Option Text)
unfolding index
option_value argv option default = elim (index option argv) [
  | none ↦ ok default
  | some i ↦ elim (get_elem? argv (i + 1)) [
    | none ↦ err (no_value option)
    | some value ↦ ok (some value)
  ]
]

unfoldable pub has_flag : List Text → Text → Bool
unfolding text_eq
has_flag argv flag = contains argv flag

abbrev pub modes : Dict Text Text
modes =
    (codes "psbfl", codes "psbfl")
    ∷ (codes "random", codes "random")
    ∷ (codes "wit-hw", codes "withw")
    ∷ []

-- The loop of `generation_mode`.
unfoldable pub first_mode : List Text → Result BatchError Text
unfolding lookup text_eq
first_mode [] = err no_mode
first_mode (argument ∷ rest) = elim (lookup argument modes) [
  | some mode ↦ ok mode
  | none ↦ first_mode rest
]

-- `len(argv)` where there is no `--`.
abbrev pub or_length : Option ℕ → List Text → ℕ
or_length none argv = length argv
or_length (some end) argv = end

unfoldable pub generation_mode : List Text → Result BatchError Text
unfolding index index_from first_mode
generation_mode argv = elim (index (codes "generation") argv) [
  | none ↦ err no_subcommand
  | some generation_index ↦
      let end = or_length (index_from (codes "--") (generation_index + 1) argv) argv in
      first_mode (reverse (take (end - (generation_index + 1)) (drop (generation_index + 1) argv)))
]

abbrev pub or_nothing : Option (List Text) → List Text
or_nothing none = []
or_nothing (some fallback) = fallback

unfoldable pub trailing_args : List Text → Option (List Text) → List Text
unfolding index
trailing_args argv fallback = elim (index (codes "--") argv) [
  | none ↦ or_nothing fallback
  | some i ↦ drop (i + 1) argv
]

unfoldable pub required_option : List Text → Text → Result BatchError Text
unfolding option_value
required_option argv option = option_value argv option none >>= λ value. elim value [
  | none ↦ err (no_option option)
  | some v ↦ ok v
]
