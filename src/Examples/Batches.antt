-- ===== src/Examples/Batches.antt =====
-- A generation run of one case for tools/ibex_sbfl_batch.
use ibex.Base.{
  contains, ◌≡◌, ◌≢◌, ◌↔◌, refl, true, false, some, none, List, [], ◌∷◌, arith, All, if◌then◌else◌,
  ◌==◌,
}
use ibex.Base.Dict.{lookup}
use ibex.Base.Int.{pos}
use ibex.Base.Results.{ok}
use ibex.Base.Text.{Text, codes, text_eq}
use ibex.Batch.{Float, ExecutionConfig, GenerationConfig, CaseSpec}
use ibex.Batch.Validate.{validate}
use ibex.Batch.Argv.{run_args, output_args, source_args, generation_args, assembled}
use ibex.Batch.LogParse.{generation_mode}
use ibex.Batch.LogParse.RoundTrip.{IsPlain}
use ibex.Batch.LogParse.ReadBack.{before_mode, generation_mode-generated}
use ibex.Batch.Run.{World, clean_up_error, run_case}
use ibex.Batch.Run.Cases.{Succeeds, Builds, run_case-Succeeds}

-- One float, which prints as 0.4.
abbrev point_four : Float
point_four = record {
  F = Unit {0};
  in_unit = λ _. true;
  is_below_zero = λ _. false;
  show = λ _. codes "0.4";
}

abbrev execution : ExecutionConfig
execution = record {
  ibex_home = codes "/ibex";
  logs_root = codes "/logs";
  tmp_root = codes "/tmp";
  jobs = pos 2;
  sbfl_bin = codes "bin/sim";
  keep_workdir = false;
  disassemble = false;
  objdump_bin = codes "objdump";
  dry_run = false;
}

abbrev generation : GenerationConfig point_four
generation = record {
  mode = codes "psbfl";
  coverage = codes "verilator.line";
  state = codes "PCState";
  max_run_timeout = pos 180;
  max_iters = pos 20;
  top_pass = pos 120;
  selection = codes "sort";
  selection_diversity_weight = tt;
  selection_pool_factor = pos 3;
  top_sus = pos 50;
  tracker_window_size = pos 20;
  cover_distance_weight = tt;
  reduce_insts = false;
  reduce_cover = false;
  input_path = some (codes "/in");
  save_corpus = false;
  checkpoint_interval = none;
  gen_only = false;
  save_reduce = false;
  save_intermediate = false;
  rtl_path = codes "rtl";
  include_paths = codes "prim,dv";
  top_module = codes "ibex_core";
  top_scope = codes "TOP";
  metric = codes "ochiai";
  mutator_window_size = pos 5;
  mutator_weight_strategy = codes "uniform";
  max_corpus_size = pos 500;
  init_seed_rate = tt;
  mutate_rate = tt;
  priority_alpha = tt;
  failed_reward = tt;
  simulator_args = codes "-c" ∷ codes "5000000" ∷ [];
}

abbrev case : CaseSpec
case = record {
  index = codes "0";
  rel_dir = codes "alu";
  diff = codes "/bugs/alu/a.sv.diff";
  case_dir = codes "/bugs/alu";
  diff_name = codes "a.sv.diff";
  corpus = none;
  old_logdir = none;
}

abbrev logdir : Text
logdir = codes "/logs/0"

abbrev workdir : Text
workdir = codes "/tmp/0"

abbrev source : List Text
source = codes "--input" ∷ codes "/in" ∷ []

valid : validate true false execution generation (case ∷ []) ≡ ok tt
unfolding validate text_eq
valid = refl

given : source_args case generation.input_path ≡ ok source
unfolding source_args
given = refl

abbrev argv : List Text
argv = assembled generation logdir workdir source (
  codes "psbfl",
  codes "--mutator-window-size"
      ∷ codes "5"
      ∷ codes "--mutator-weight-strategy"
      ∷ codes "uniform"
      ∷ [],
)

written : generation_args generation case logdir workdir ≡ ok argv
unfolding generation_args text_eq
written = refl

plain : (x : Unit {0}) → IsPlain (codes "0.4")
unfolding lookup text_eq
plain x = (refl, λ p. absurd cc)

none_of : (x : Text) (xs : List Text) → contains xs x ≡ false → All (λ a. a ≢ x) xs
none_of x [] h = tt
none_of x (y ∷ ys) h = (ground arith, none_of x ys (ground arith))

no_separator : contains (before_mode generation case logdir workdir source) (codes "--") ≡ false
unfolding run_args output_args text_eq
no_separator = refl

clear : All (λ a. a ≢ codes "--") (before_mode generation case logdir workdir source)
clear = none_of (codes "--") (before_mode generation case logdir workdir source) no_separator

generation_mode-generated_example : generation_mode (codes "/sim" ∷ argv) ≡ ok (codes "psbfl")
generation_mode-generated_example =
    generation_mode-generated generation case logdir workdir (codes "/sim") true false execution
      (case ∷ []) source argv valid given written plain
      ((λ p. absurd cc), ((λ p. absurd cc), ((λ p. absurd cc), tt))) clear

abbrev world : World
world = record {
  mkdir_error = none;
  diff_is_file = true;
  corpus_is_file = false;
  copy_error = none;
  patch_rc = ok (pos 0);
  build_rc = ok (pos 0);
  binary_is_executable = true;
  sbfl_rc = ok (pos 0);
  workdir_is_dir = true;
  rmtree_error = none;
  elapsed = codes "00:00:01:000";
}

run_case-Succeeds_example : Succeeds (run_case world execution generation case logdir workdir) ↔ (
    (world.mkdir_error ≡ none)
    × (true ≡ true)
    × (false ≡ false)
    × (world.copy_error ≡ none)
    × (true ≡ true)
    × Builds world execution generation case logdir workdir
    × (clean_up_error world execution generation case logdir workdir ≡ none))
run_case-Succeeds_example = run_case-Succeeds world execution generation case logdir workdir refl

-- A second case, whose build fails.
abbrev cases : List CaseSpec
cases = case ∷ record case { index = codes "1" } ∷ []

abbrev worlds : CaseSpec → World
worlds c = if c.index == codes "0" then world else record world { build_rc = ok (pos 1) }
