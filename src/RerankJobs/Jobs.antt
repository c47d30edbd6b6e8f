-- ===== src/RerankJobs/Jobs.antt =====
-- The jobs of rerank_sbfl_with_llm.py, from the results that are selected and their run.log.
pub mod Built
use ibex.Base.{
  ℕ, Bool, true, false, ◌&&◌, ◌||◌, not, Option, none, some, List, [], ◌∷◌, ◌++◌, is_empty, nat_eqb,
  leb, if◌then◌else◌, ◌==◌,
}
use ibex.Base.Results.{Result, ok, err, ◌>>=◌, ◌>>◌, raise_if}
use ibex.Base.Text.{Text, codes, text_eq, strip, join}
use ibex.Batch.Paths.{normal_path, is_absolute, joined, path_parts, name_of}
use ibex.RerankJobs.Cases.{
  JobError, no_diff, no_bugset, no_patch_root, diff_has_directory, no_patch, no_rtl, Selection, Row,
  cut_at,
}

-- The files as they are met: `pathlib`, the lines of the run.log below a directory, the
-- directories that `rglob("blocks.json")` finds, a summary, and `\d` of a code point.
pub record Files : Type 0 where
  pub is_file : Text → Bool
  pub is_dir : Text → Bool
  pub exists : Text → Bool
  pub resolve : Text → Text
  pub expanduser : Text → Text
  pub run_log : Text → Result JobError (List Text)
  pub with_blocks : Text → List Text
  pub read_summary : Text → Result JobError (List Text × List Row)
  pub is_decimal : ℕ → Bool

pub record RunMetadata : Type 0 where
  pub diff_path : Option Text
  pub bugset : Option Text

pub record Job : Type 0 where
  pub label : Text
  pub result_dir : Text
  pub rtl_path : Text
  pub patch_path : Text

-- `[A-Z ]+`
unfoldable pub is_field : Text → Bool
is_field [] = true
is_field (c ∷ s) = (leb b'A' c && leb c b'Z' || nat_eqb c b' ') && is_field s

-- `match` of RUN_LOG_FIELD_RE on a line, and its stripped groups.
unfoldable pub log_field : Text → Option (Text × Text)
unfolding cut_at is_field strip
log_field [] = none
log_field (c ∷ s) =
    if nat_eqb c b'['
    then elim (cut_at b']' s) [
      | none ↦ none
      | some (field, value) ↦
          if not (is_empty field) && is_field field then some (strip field, strip value) else none
    ]
    else none

-- `value or None`
abbrev or_none : Text → Option Text
or_none [] = none
or_none (c ∷ s) = some (c ∷ s)

abbrev set_field : Option (Text × Text) → RunMetadata → RunMetadata
set_field none m = m
set_field (some (field, value)) m =
    if field == codes "DIFF"
    then record m { diff_path = or_none value }
    else if field == codes "REL"
    then record m { bugset = or_none value }
    else m

unfoldable pub read_lines : List Text → RunMetadata → RunMetadata
unfolding log_field text_eq
read_lines [] m = m
read_lines (line ∷ lines) m = read_lines lines (set_field (log_field line) m)

unfoldable pub read_run_metadata : Files → Text → Result JobError RunMetadata
unfolding read_lines
read_run_metadata files result_dir =
    files.run_log result_dir
    >>= (λ lines. ok (read_lines lines (record { diff_path = none; bugset = none })))

-- The parts from the first one that is the anchor on.
unfoldable pub from_anchor : Text → List Text → Option (List Text)
unfolding text_eq
from_anchor anchor [] = none
from_anchor anchor (part ∷ parts) =
    if part == anchor then some (part ∷ parts) else from_anchor anchor parts

module _ (files : Files) (repo_root : Text) where
  unfoldable pub rebase_recorded_path : Text → Text → Text
  unfolding is_absolute joined normal_path from_anchor path_parts
  rebase_recorded_path path anchor =
      if not (is_absolute path)
      then files.resolve (joined repo_root path)
      else if files.exists path
      then files.resolve path
      else elim (from_anchor anchor (path_parts path)) [
        | some parts ↦ files.resolve (joined repo_root (join (codes "/") parts))
        | none ↦ path
      ]

  unfoldable pub resolve_rtl_path : Text → Text
  unfolding is_absolute joined
  resolve_rtl_path explicit_rtl =
      let path = files.expanduser explicit_rtl in
      if not (is_absolute path) then files.resolve (joined repo_root path) else files.resolve path

  -- `bugset_override or metadata.bugset`
  abbrev or_recorded : Option Text → Option Text → Option Text
  or_recorded (some (c ∷ s)) recorded = some (c ∷ s)
  or_recorded _ recorded = recorded

  -- `diff_name_override`, and else the name of the recorded path.
  abbrev diff_name_of : Option Text → Option Text → Option Text
  diff_name_of (some name) recorded = some name
  diff_name_of none none = none
  diff_name_of none (some path) = some (name_of path)

  abbrev below_root : Text → Option Text → Option Text → Result JobError Text
  below_root resolved none diff_name = err no_bugset
  below_root resolved (some bugset) none = err no_diff
  below_root resolved (some bugset) (some diff_name) =
      if name_of diff_name == diff_name
      then ok (joined (joined resolved bugset) diff_name)
      else err diff_has_directory

  unfoldable pub resolve_patch_path :
      RunMetadata
      → Option Text
      → (bugset_override diff_name_override : Option Text) → Result JobError Text
  unfolding rebase_recorded_path resolve_rtl_path joined name_of text_eq
  resolve_patch_path metadata none bugset_override diff_name_override = elim metadata.diff_path [
    | none ↦ err no_diff
    | some diff_path ↦
        ok (rebase_recorded_path (files.expanduser diff_path) (codes "verify_dataset"))
  ]
  resolve_patch_path metadata (some patchs_root) bugset_override diff_name_override =
      let resolved = resolve_rtl_path patchs_root in
      raise_if (not (files.is_dir resolved)) no_patch_root
      >> below_root resolved (or_recorded bugset_override metadata.bugset)
          (diff_name_of diff_name_override metadata.diff_path)

  -- One turn of the loop of `build_jobs`.
  unfoldable pub build_job : Text → Option Text → Selection → Result JobError Job
  unfolding read_run_metadata resolve_patch_path
  build_job rtl_path patchs_root selection =
      read_run_metadata files selection.result_dir >>= (λ metadata.
        resolve_patch_path metadata patchs_root selection.bugset selection.diff_name
        >>= (λ patch_path.
            raise_if (not (files.is_file patch_path)) no_patch
            >> ok (record {
              label = selection.label;
              result_dir = selection.result_dir;
              rtl_path = rtl_path;
              patch_path = patch_path;
            })))

  abbrev keep : Result JobError Job → List Job × List JobError → List Job × List JobError
  keep (ok job) (jobs, errors) = (job ∷ jobs, errors)
  keep (err e) (jobs, errors) = (jobs, e ∷ errors)

  -- `jobs` and `errors` behind the loop.
  unfoldable pub build_all : Text → Option Text → List Selection → List Job × List JobError
  unfolding build_job
  build_all rtl_path patchs_root [] = ([], [])
  build_all rtl_path patchs_root (selection ∷ selected) =
      keep (build_job rtl_path patchs_root selection) (build_all rtl_path patchs_root selected)

  unfoldable pub build_jobs :
      List Selection → Text → Option Text → Result (List JobError) (List Job)
  unfolding build_all resolve_rtl_path
  build_jobs selected explicit_rtl patchs_root =
      let rtl_path = resolve_rtl_path explicit_rtl in
      let (jobs, errors) = build_all rtl_path patchs_root selected in
      if not (files.is_dir rtl_path)
      then err (no_rtl ∷ [])
      else if is_empty errors
      then ok jobs
      else err errors
