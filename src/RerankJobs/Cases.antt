-- ===== src/RerankJobs/Cases.antt =====
-- The results that rerank_sbfl_with_llm.py selects by a summary.
pub mod Selected
use ibex.Base.{
  ℕ, zero, suc, ◌+◌, ◌-◌, ◌≡◌, Bool, true, false, ◌&&◌, ◌||◌, not, Option, none, some, List, [],
  ◌∷◌, ◌++◌, length, is_empty, take, nat_eqb, if◌then◌else◌, ◌==◌, contains, Eq, nat_eq,
}
use mathlib.Core.List.{reverse}
use ibex.Base.Results.{Result, ok, err, ◌>>=◌}
use ibex.Base.Text.{Text, codes, text_eq, strip, starts_with}
use ibex.Base.Dict.{Dict, lookup}
use ibex.Batch.Paths.{name_of}

-- A `ValueError`, or an `OSError` of the file system.
pub data JobError : Type 0 where
  missing_columns empty_case unexpected_diff duplicate_results no_result : JobError
  wrong_file not_result_dir no_target no_results : JobError
  no_diff no_bugset no_patch_root diff_has_directory no_patch no_rtl : JobError
  os_error : JobError

pub record Selection : Type 0 where
  pub label : Text
  pub result_dir : Text
  pub bugset : Option Text
  pub diff_name : Option Text

-- A bugset and a name: of a diff, or of a module.
abbrev pub Key : Type 0
Key = Text × Text

unfoldable Key-discrete : Discrete Key
unfolding text_eq
Key-discrete (a, b) (c, d) = both (text_eq.dec a c) (text_eq.dec b d)
  where
    both : Dec (a ≡ c) → Dec (b ≡ d) → Dec (◌≡◌ {A = Key} (a, b) (c, d))
    both (yes p) (yes q) = yes (cc)
    both (yes p) (no q) = no (λ r. q (cc))
    both (no p) q = no (λ r. p (cc))

instance unfoldable pub key_eq : Eq Key
unfolding Key-discrete
key_eq = record { dec = Key-discrete }

-- A row of the summary, as `csv.DictReader` gives the three columns that are read.
pub record Row : Type 0 where
  pub bugset : Text
  pub diff : Text
  pub status : Text

-- The loop over the rows, with the cases so far, which are also the `seen` ones.
unfoldable pub read_rows : List Key → List Row → Result JobError (List Key)
unfolding strip text_eq key_eq
read_rows cases [] = ok cases
read_rows cases (row ∷ rows) =
    let key : Key = (strip row.bugset, strip row.diff) in
    let skip = read_rows cases rows in
    let more = read_rows (cases ++ (key ∷ [])) rows in
    if not (row.status == codes "LLM_MISSING")
    then skip
    else if is_empty key.0 || is_empty key.1
    then err empty_case
    else if contains cases key
    then skip
    else more

-- `read_missing_cases`, behind the file and the reader of csv.
unfoldable pub read_missing_cases : List Text → List Row → Result JobError (List Key)
unfolding read_rows text_eq
read_missing_cases fieldnames rows =
    if contains fieldnames (codes "bugset")
      && contains fieldnames (codes "diff")
      && contains fieldnames (codes "status")
    then read_rows [] rows
    else err missing_columns

-- `s.endswith(suffix)`
unfoldable pub ends_with : Text → Text → Bool
unfolding starts_with
ends_with s suffix = starts_with (reverse s) (reverse suffix)

unfoldable pub module_from_diff : Text → Result JobError Text
unfolding ends_with
module_from_diff diff_name =
    if ends_with diff_name (codes ".sv.diff")
    then ok (take (length diff_name - 8) diff_name)
    else err unexpected_diff

-- The text in front of the first `c` and the text behind it.
unfoldable pub cut_at : ℕ → Text → Option (Text × Text)
cut_at c [] = none
cut_at c (x ∷ s) =
    if nat_eqb x c
    then some ([], s)
    else elim (cut_at c s) [ none ↦ none | some (front, behind) ↦ some (x ∷ front, behind) ]

unfoldable pub all_digits : (ℕ → Bool) → Text → Bool
all_digits is_decimal [] = true
all_digits is_decimal (c ∷ s) = is_decimal c && all_digits is_decimal s

-- `match` of RUN_DIR_RE on a whole name, and its groups; `is_decimal` is `\d` of a code point.
unfoldable pub run_dir_key : (ℕ → Bool) → Text → Option Key
unfolding cut_at all_digits nat_eq
run_dir_key is_decimal name = elim (cut_at b'_' name) [
  | none ↦ none
  | some (front, behind) ↦ elim (cut_at b'_' behind) [
    | none ↦ none
    | some (bugset, module_name) ↦
        if not (is_empty front)
          && not (is_empty bugset)
          && all_digits is_decimal bugset
          && not (is_empty module_name)
          && not (contains module_name 10)
        then some (bugset, module_name)
        else none
  ]
]

module _ (is_decimal : ℕ → Bool) where
  -- `index`, with a directory more for each name that matches.
  unfoldable pub index_dirs : Dict Key Text → List Text → Result JobError (Dict Key Text)
  unfolding run_dir_key name_of lookup key_eq
  index_dirs index [] = ok index
  index_dirs index (result_dir ∷ result_dirs) = elim (run_dir_key is_decimal (name_of result_dir)) [
    | none ↦ index_dirs index result_dirs
    | some key ↦ elim (lookup key index) [
      | some _ ↦ err duplicate_results
      | none ↦ index_dirs (index ++ ((key, result_dir) ∷ [])) result_dirs
    ]
  ]

-- One case of the second loop.
unfoldable pub select_case : Dict Key Text → Key → Result JobError Selection
unfolding module_from_diff lookup key_eq
select_case index (bugset, diff_name) = module_from_diff diff_name >>= λ module_name.
    elim (lookup (bugset, module_name) index) [
      | none ↦ err no_result
      | some result_dir ↦ ok (record {
        label = bugset ++ (codes "/" ++ diff_name);
        result_dir = result_dir;
        bugset = some bugset;
        diff_name = some diff_name;
      })
    ]

unfoldable pub select_all : Dict Key Text → List Key → Result JobError (List Selection)
unfolding select_case
select_all index [] = ok []
select_all index (key ∷ missing_cases) =
    select_case index key
    >>= (λ selection. select_all index missing_cases >>= (λ selected. ok (selection ∷ selected)))

unfoldable pub select_missing_result_dirs :
    (ℕ → Bool) → List Text → List Key → Result JobError (List Selection)
unfolding index_dirs select_all
select_missing_result_dirs is_decimal result_dirs missing_cases =
    index_dirs is_decimal [] result_dirs >>= (λ index. select_all index missing_cases)
