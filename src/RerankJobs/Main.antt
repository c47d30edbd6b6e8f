-- ===== src/RerankJobs/Main.antt =====
-- `collect_selected_results` and `main` of rerank_sbfl_with_llm.py.
pub mod Ran
use ibex.Base.{
  ℕ, ◌+◌, Bool, true, false, ◌&&◌, ◌||◌, not, Option, none, some, List, [], ◌∷◌, ◌++◌, is_empty,
  length, drop, ltb, map, if◌then◌else◌, ◌==◌, contains,
}
use ibex.Base.Results.{Result, ok, err, ◌>>=◌, ◌>>◌, raise_if}
use ibex.Base.Sorting.{sort}
use ibex.Base.Text.{Text, codes, text_eq, starts_with, join, text_leb}
use ibex.Batch.Paths.{joined, path_parts, name_of}
use ibex.RerankJobs.Arguments.{ArgError, expected_argument, rejected, Args, parse_args, has_option}
use ibex.RerankJobs.Arguments
use ibex.RerankJobs.Arguments.Model.{prepared}
use ibex.RerankJobs.Cases.{
  JobError, wrong_file, not_result_dir, no_results, Selection, read_missing_cases,
  select_missing_result_dirs,
}
use ibex.RerankJobs.Cases
use ibex.RerankJobs.Jobs.{Files, Job, build_jobs}

unfoldable pub all_but_last : List Text → List Text
all_but_last [] = []
all_but_last (part ∷ []) = []
all_but_last (part ∷ next ∷ parts) = part ∷ all_but_last (next ∷ parts)

-- `path.parent` of an absolute path.
unfoldable pub parent_of : Text → Text
unfolding all_but_last path_parts join
parent_of path = codes "/" ++ join (codes "/") (all_but_last (path_parts path))

-- `set.add` of a path.
abbrev add_path : Text → List Text → List Text
add_path path paths = if contains paths path then paths else path ∷ paths

module _ (files : Files) where
  unfoldable pub is_result_dir : Text → Bool
  unfolding joined
  is_result_dir path =
      files.is_dir path
      && files.is_file (joined path (codes "blocks.json"))
      && files.is_file (joined path (codes "run.log"))
      && files.is_file (joined path (codes "result.log"))

  -- The loop of `discover_result_dirs`: its two sets.
  unfoldable pub discover : List Text → List Text × List Text
  unfolding joined text_eq
  discover [] = ([], [])
  discover (result_dir ∷ dirs) =
      let (complete, incomplete) = discover dirs in
      if not (files.is_file (joined result_dir (codes "run.log")))
      then (complete, incomplete)
      else if files.is_file (joined result_dir (codes "result.log"))
      then (add_path (files.resolve result_dir) complete, incomplete)
      else (complete, add_path (files.resolve result_dir) incomplete)

  unfoldable pub discover_result_dirs : Text → List Text × List Text
  unfolding discover sort text_leb
  discover_result_dirs parent =
      let (complete, incomplete) = discover (files.with_blocks parent) in
      (sort text_leb complete, sort text_leb incomplete)

  -- `result_dirs` and `incomplete`.
  unfoldable pub find_result_dirs : Text → Result JobError (List Text × List Text)
  unfolding is_result_dir discover_result_dirs parent_of name_of text_eq
  find_result_dirs target =
      if files.is_file target
      then (raise_if (not (name_of target == codes "result.log")) wrong_file
          >> (raise_if (not (is_result_dir (parent_of target))) not_result_dir
              >> ok (files.resolve (parent_of target) ∷ [], [])))
      else if is_result_dir target
      then ok (files.resolve target ∷ [], [])
      else if files.is_dir target
      then ok (discover_result_dirs target)
      else err Cases.no_target

  -- `Selection(str(path), path)`
  abbrev plain_selection : Text → Selection
  plain_selection path = record { label = path; result_dir = path; bugset = none; diff_name = none }

  -- The selection from the directories that were found.
  unfoldable pub select_by : Option Text → List Text → Result JobError (List Selection)
  unfolding read_missing_cases select_missing_result_dirs
  select_by none result_dirs = ok (map plain_selection result_dirs)
  select_by (some summary) result_dirs = files.read_summary summary >>= (λ (fieldnames, rows).
      read_missing_cases fieldnames rows >>= (λ missing_cases.
        if is_empty missing_cases
        then ok []
        else select_missing_result_dirs files.is_decimal result_dirs missing_cases))

  unfoldable pub collect_selected_results :
      Text → Option Text → Result JobError (List Selection × List Text)
  unfolding find_result_dirs select_by
  collect_selected_results target summary =
      find_result_dirs target >>= (λ (result_dirs, incomplete).
        raise_if (is_empty result_dirs) no_results
        >> (select_by summary result_dirs >>= (λ selected. ok (selected, incomplete))))

-- `str(path.relative_to(repo_root))`, or the path where it is not below the root.
unfoldable pub display_path : Text → Text → Text
unfolding text_eq starts_with
display_path repo_root path =
    if path == repo_root
    then codes "."
    else if starts_with path (repo_root ++ codes "/")
    then drop (length repo_root + 1) path
    else path

unfoldable pub build_command : Text → List Text → Job → List Text
unfolding display_path
build_command repo_root forwarded job =
    codes "uv"
    ∷ codes "run"
    ∷ codes "--project"
    ∷ codes "tools/ibex_sbfl_llm"
    ∷ codes "--frozen"
    ∷ codes "ibex-sbfl"
    ∷ codes "rerank"
    ∷ display_path repo_root job.rtl_path
    ∷ display_path repo_root job.result_dir
    ∷ codes "--patch"
    ∷ display_path repo_root job.patch_path
    ∷ forwarded

-- The exit code without a command, the commands that are printed, or those that `run_jobs` gets.
pub data Outcome : Type 0 where
  exits : ℕ → Outcome
  listed : List (List Text) → Outcome
  ran : List (List Text) → (max_workers : ℕ) → (stop_on_error : Bool) → Outcome

-- The options that `main` refuses.
unfoldable pub is_refused : List Text → Bool
unfolding has_option
is_refused forwarded =
    has_option forwarded (codes "--patch")
    || has_option forwarded (codes "--patch-path")
    || has_option forwarded (codes "--patch_path")
    || has_option forwarded (codes "--allow-unpatched-source")

-- `selected`, without the results that exist and are skipped.
unfoldable pub select_jobs : Files → Bool → List Job → List Job
unfolding joined
select_jobs files skip_existing [] = []
select_jobs files skip_existing (job ∷ jobs) =
    let rest = select_jobs files skip_existing jobs in
    if skip_existing && files.is_file (joined job.result_dir (codes "llm_rerank.json"))
    then rest
    else job ∷ rest

abbrev code_of : ArgError → ℕ
code_of (rejected code) = code
code_of _ = 2

-- `args.results_root if args.results_root is not None else args.target`
abbrev pub target_value : Args → Text
target_value args = elim args.results_root [
  | some path ↦ path
  | none ↦ elim args.target [ some path ↦ path | none ↦ [] ]
]

abbrev pub resolved : Files → Option Text → Option Text
resolved files none = none
resolved files (some path) = some (files.resolve (files.expanduser path))

abbrev pub is_missing : Files → Option Text → Bool
is_missing files none = false
is_missing files (some path) = not (files.is_file path)

abbrev pub is_given : Option Text → Bool
is_given none = false
is_given (some path) = true

module _ (files : Files) (repo_root : Text) (args : Args) (forwarded : List Text) where
  -- `main` behind the jobs.
  unfoldable pub run_selected : List Job → Outcome
  unfolding has_option prepared build_command
  run_selected selected =
      let commands = map (build_command repo_root (prepared forwarded)) selected in
      if ltb 1 (length selected) && has_option forwarded (codes "--output")
      then exits 2
      else if args.list_only
      then listed commands
      else ran commands args.jobs args.stop_on_error

  -- `main` behind its parser, where the project is there.
  unfoldable pub run_parsed : Outcome
  unfolding is_refused collect_selected_results build_jobs select_jobs run_selected
  run_parsed =
      let summary = resolved files args.summary in
      if is_missing files summary || is_refused forwarded
      then exits 2
      else elim (collect_selected_results files
          (files.resolve (files.expanduser (target_value args))) summary) [
            | err _ ↦ exits 2
            | ok (selected_results, incomplete) ↦
                elim (build_jobs files repo_root selected_results args.rtl_path args.patchs_path) [
                  | err _ ↦ exits 2
                  | ok jobs ↦
                      if is_given summary && is_empty selected_results
                      then exits 0
                      else run_selected (select_jobs files args.skip_existing jobs)
                ]
          ]

unfoldable pub main :
    Files → (repo_root : Text) → (List Text → Result ArgError Args) → (argv : List Text) → Outcome
unfolding parse_args run_parsed joined
main files repo_root parser argv = elim (parse_args parser argv) [
  | err e ↦ exits (code_of e)
  | ok (args, forwarded) ↦
      if not (files.is_dir (joined repo_root (codes "tools/ibex_sbfl_llm")))
      then exits 2
      else run_parsed files repo_root args forwarded
]
