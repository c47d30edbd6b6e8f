-- ===== src/Batch/Sweep.antt =====
-- tools/ibex_sbfl_batch/src/ibex_sbfl_batch/sweep.py: the points of a sweep, the commands of a
-- point, its status, and the combined summary. Files and processes answer through arguments.
pub mod Point
pub mod Grid
pub mod Summary
use mathlib.Core.List.{flat_map}
use ibex.Base.{
  ℕ, zero, suc, ◌+◌, ◌-◌, ◌*◌, ◌≡◌, Bool, true, false, ◌&&◌, ◌||◌, not, Option, none, some, List,
  [], ◌∷◌, ◌++◌, map, Eq, ◌==◌, contains, leb, nat_eqb, nat_eq, is_empty, if◌then◌else◌, length,
}
use ibex.Base.Int.{ℤ, pos, negsuc, is_positive, is_negative, show_int}
use ibex.Base.Results.{Result, ok, err, ◌>>=◌, ◌>>◌, raise_if}
use ibex.Base.Text.{Text, codes, text_eq, split_words, join, str}
use ibex.Batch.Validate.{strategies}
use ibex.Batch.Paths.{joined}

pub data SweepError : Type 0 where
  not_positive : Text → Text → SweepError
  duplicate_number : Text → ℕ → SweepError
  duplicate_text : Text → Text → SweepError
  invalid_strategy : Text → SweepError
  sweep_jobs_not_positive : ℤ → SweepError
  jobs_not_positive : ℤ → SweepError
  line_window_negative : ℤ → SweepError
  interrupted : SweepError

-- `value.replace(",", " ").split()` of each value, or the default.
abbrev no_commas : Text → Text
no_commas [] = []
no_commas (c ∷ s) = (if nat_eqb c b',' then 32 else c) ∷ no_commas s

abbrev or_default : List Text → List Text → List Text
or_default [] default = default
or_default (x ∷ xs) default = x ∷ xs

unfoldable pub split_values : List Text → List Text → List Text
unfolding split_words
split_values values default =
    or_default (flat_map (λ value. split_words [] (no_commas value)) values) default

-- `value.isascii() and value.isdigit()`, behind the first character.
abbrev all_digits : Text → Bool
all_digits [] = true
all_digits (c ∷ s) = leb b'0' c && leb c b'9' && all_digits s

-- `int(value)` of a text of digits.
abbrev pub int_of_digits : ℕ → Text → ℕ
int_of_digits n [] = n
int_of_digits n (c ∷ s) = int_of_digits (n * 10 + (c - 48)) s

abbrev pub is_positive_text : Text → Bool
is_positive_text value =
    not (is_empty value) && all_digits value && not (nat_eqb (int_of_digits 0 value) 0)

module _ {ℓ} {A : Type ℓ} ⦃e : Eq A⦄ where
  -- `_reject_duplicates`: the first value that was seen before, if any.
  unfoldable pub first_duplicate : List A → List A → Option A
  first_duplicate seen [] = none
  first_duplicate seen (value ∷ values) =
      if contains seen value then some value else first_duplicate (value ∷ seen) values

unfoldable pub reject_numbers : Text → List ℕ → Result SweepError (Unit {0})
unfolding first_duplicate nat_eq
reject_numbers name values = elim (first_duplicate [] values) [
  | none ↦ ok tt
  | some value ↦ err (duplicate_number name value)
]

unfoldable pub reject_texts : Text → List Text → Result SweepError (Unit {0})
unfolding first_duplicate text_eq
reject_texts name values = elim (first_duplicate [] values) [
  | none ↦ ok tt
  | some value ↦ err (duplicate_text name value)
]

-- The loop of `_positive_ints`.
unfoldable pub read_positive : Text → List Text → Result SweepError (List ℕ)
read_positive name [] = ok []
read_positive name (value ∷ values) =
    let rest = read_positive name values in
    if is_positive_text value
    then (rest >>= λ ns. ok (int_of_digits 0 value ∷ ns))
    else err (not_positive name value)

unfoldable pub positive_ints : Text → List Text → Result SweepError (List ℕ)
unfolding read_positive reject_numbers
positive_ints name values =
    read_positive name values >>= λ result. (reject_numbers name result >> ok result)

pub record SweepConfig : Type 0 where
  pub mode : Text
  pub target : Text
  pub top_passes : List ℕ
  pub window_sizes : List ℕ
  pub weight_strategies : List Text
  pub sweep_jobs : ℤ
  pub inner_jobs : Option ℤ
  pub tmp_root : Text
  pub logs_root : Text
  pub workdir : Option Text
  pub line_window : ℤ
  pub summary_bugset_root : Text
  pub run_script : Text
  pub summarize_script : Text
  pub forwarded_args : List Text

pub record SweepPoint : Type 0 where
  pub top_pass : ℕ
  pub weight_strategy : Text
  pub window_size : ℕ

pub record SweepResult : Type 0 where
  pub point : SweepPoint
  pub status : Text
  pub run_rc : ℤ
  pub summary_rc : ℤ
  pub elapsed_time : Text
  pub logs_root : Text
  pub tmp_root : Text
  pub run_log : Text
  pub summary_log : Text
  pub summary_tsv : Text

-- The numbers and strategies that `from_args` reads (lines 185-200).
pub record SweepValues : Type 0 where
  pub top_passes : List ℕ
  pub window_sizes : List ℕ
  pub weight_strategies : List Text

abbrev first_invalid : List Text → Option Text
first_invalid [] = none
first_invalid (s ∷ ss) =
    let rest = first_invalid ss in if contains strategies s then rest else some s

unfoldable pub check_strategies : List Text → Result SweepError (Unit {0})
unfolding reject_texts text_eq
check_strategies values = elim (first_invalid values) [
  | some s ↦ err (invalid_strategy s)
  | none ↦ reject_texts (codes "mutator weight strategy") values
]

abbrev check_jobs : Option ℤ → Result SweepError (Unit {0})
check_jobs none = ok tt
check_jobs (some n) = raise_if (not (is_positive n)) (jobs_not_positive n)

unfoldable pub read_values :
    (top_pass_values window_size_values weight_strategy_values : List Text)
    → (sweep_jobs : ℤ) → (jobs : Option ℤ) → (line_window : ℤ) → Result SweepError SweepValues
unfolding split_values positive_ints check_strategies
read_values top_pass_values window_size_values weight_strategy_values sweep_jobs jobs line_window =
    positive_ints (codes "top pass") (split_values top_pass_values []) >>= λ top_passes.
    positive_ints (codes "mutator window size") (split_values window_size_values [])
    >>= λ window_sizes.
        (check_strategies (split_values weight_strategy_values (codes "uniform" ∷ []))
          >> raise_if (not (is_positive sweep_jobs)) (sweep_jobs_not_positive sweep_jobs)
          >> check_jobs jobs
          >> raise_if (is_negative line_window) (line_window_negative line_window)
          >> ok (record {
            top_passes = top_passes;
            window_sizes = window_sizes;
            weight_strategies = split_values weight_strategy_values (codes "uniform" ∷ []);
          }))

-- `_points`
unfoldable pub points : SweepConfig → List SweepPoint
points config =
    flat_map
      (λ top_pass.
        flat_map
          (λ strategy.
            map
              (λ window_size. record {
                top_pass = top_pass;
                weight_strategy = strategy;
                window_size = window_size;
              })
              config.window_sizes)
          config.weight_strategies)
      config.top_passes
