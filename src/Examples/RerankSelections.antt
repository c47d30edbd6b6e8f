-- ===== src/Examples/RerankSelections.antt =====
-- What scripts/rerank_sbfl_with_llm.py selects and starts.
use ibex.Base.{
  ℕ, ◌≡◌, refl, Bool, false, ◌&&◌, ◌||◌, none, some, List, [], ◌∷◌, ◌++◌, leb, nat_eq, map, ◌==◌,
}
use ibex.Base.Results.{Result, ok}
use ibex.Base.Text.{Text, codes, text_eq}
use ibex.RerankJobs.Arguments.{ArgError, Args, split_args, parse_args}
use ibex.RerankJobs.Arguments.Split.{IsCut, Deals, split_args-Deals}
use ibex.RerankJobs.Arguments.Model.{prepared}
use ibex.RerankJobs.Cases.{Key, key_eq, Selection, select_missing_result_dirs}
use ibex.RerankJobs.Cases.Selected.{AreOf, select_missing_result_dirs-AreOf}
use ibex.RerankJobs.Jobs.{Files, Job, build_jobs}
use ibex.RerankJobs.Main.{build_command, ran, main}
use ibex.RerankJobs.Main.Ran.{AreReady, main-ran}

abbrev own_arguments : List Text
own_arguments = codes "/r" ∷ codes "--jobs" ∷ codes "4" ∷ []

abbrev forwarded_ones : List Text
forwarded_ones = codes "--model" ∷ codes "glm-5" ∷ codes "--top-k" ∷ []

abbrev argv : List Text
argv =
    codes "/r"
    ∷ codes "--model"
    ∷ codes "glm-5"
    ∷ codes "--jobs"
    ∷ codes "4"
    ∷ codes "--"
    ∷ codes "--top-k"
    ∷ []

splits : split_args argv ≡ ok (own_arguments, forwarded_ones)
unfolding split_args text_eq
splits = refl

split_args-Deals_example :
    (values : List Text) × (passthrough : List Text) × (front : List Text) × IsCut argv
      (values, passthrough)
    × Deals own_arguments front values
    × (forwarded_ones ≡ front ++ passthrough)
split_args-Deals_example = split_args-Deals argv own_arguments forwarded_ones splits

abbrev is_ascii_digit : ℕ → Bool
is_ascii_digit c = leb 48 c && leb c 57

abbrev dirs : List Text
dirs = codes "/r/run_12_ibex_alu" ∷ codes "/r/notes" ∷ []

abbrev cases : List Key
cases = (codes "12", codes "ibex_alu.sv.diff") ∷ []

abbrev selection : Selection
selection = record {
  label = codes "12/ibex_alu.sv.diff";
  result_dir = codes "/r/run_12_ibex_alu";
  bugset = some (codes "12");
  diff_name = some (codes "ibex_alu.sv.diff");
}

selects : select_missing_result_dirs is_ascii_digit dirs cases ≡ ok (selection ∷ [])
unfolding select_missing_result_dirs
selects = refl

select_missing_result_dirs-AreOf_example : AreOf is_ascii_digit dirs cases (selection ∷ [])
select_missing_result_dirs-AreOf_example =
    select_missing_result_dirs-AreOf is_ascii_digit dirs cases (selection ∷ []) selects

-- A result below `/r`, its RTL and its patch; paths are resolved already.
abbrev files : Files
files = record {
  is_file = λ path.
      path == codes "/r/blocks.json"
      || path == codes "/r/run.log"
      || path == codes "/r/result.log"
      || path == codes "/root/verify_dataset/12/ibex_alu.sv.diff";
  is_dir = λ path.
      path == codes "/r" || path == codes "/root/rtl" || path == codes "/root/tools/ibex_sbfl_llm";
  exists = λ path. false;
  resolve = λ path. path;
  expanduser = λ path. path;
  run_log = λ path. ok (codes "[REL ] 12" ∷ codes "[DIFF] verify_dataset/12/ibex_alu.sv.diff" ∷ []);
  with_blocks = λ path. [];
  read_summary = λ path. ok ([], []);
  is_decimal = is_ascii_digit;
}

abbrev args : Args
args = record {
  target = some (codes "/r");
  results_root = none;
  summary = none;
  rtl_path = codes "rtl";
  patchs_path = none;
  jobs = 4;
  skip_existing = false;
  stop_on_error = false;
  list_only = false;
}

abbrev parser : List Text → Result ArgError Args
parser wrapper = ok args

abbrev plain : Selection
plain = record { label = codes "/r"; result_dir = codes "/r"; bugset = none; diff_name = none }

abbrev job : Job
job = record {
  label = codes "/r";
  result_dir = codes "/r";
  rtl_path = codes "/root/rtl";
  patch_path = codes "/root/verify_dataset/12/ibex_alu.sv.diff";
}

abbrev repo_root : Text
repo_root = codes "/root"

builds : build_jobs files repo_root (plain ∷ []) (codes "rtl") none ≡ ok (job ∷ [])
unfolding build_jobs text_eq
builds = refl

abbrev commands : List (List Text)
commands = map (build_command repo_root (prepared forwarded_ones)) (job ∷ [])

starts : main files repo_root parser argv ≡ ran commands 4 false
unfolding main text_eq
starts = refl

main-ran_example :
    (a : Args) × (forwarded : List Text) × (jobs : List Job) × (parse_args parser argv
      ≡ ok (a, forwarded))
    × AreReady files a forwarded jobs
    × (commands ≡ map (build_command repo_root (prepared forwarded)) jobs)
    × (4 ≡ a.jobs)
    × (false ≡ a.stop_on_error)
main-ran_example = main-ran files repo_root parser argv commands 4 false starts
