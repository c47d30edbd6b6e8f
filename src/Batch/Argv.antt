-- ===== src/Batch/Argv.antt =====
-- `GenerationRunner._generation_args` of runner.py, in the source's order, in three parts: what
-- stands in front of the mode, the mode with its options, and the simulator's arguments.
use ibex.Base.{Bool, Option, none, some, List, [], ◌∷◌, ◌++◌, map, if◌then◌else◌, ◌==◌, is_empty}
use ibex.Base.Int.{ℤ, show_int}
use ibex.Base.Results.{Result, ok, err, ◌>>=◌}
use ibex.Base.Text.{Text, codes, text_eq, join, split_on}
use ibex.Batch.{Float, GenerationConfig, CaseSpec}
use ibex.Batch.Paths.{joined, resolve_workdir_path}
use ibex.Batch.Validate.{BatchError, unsupported_mode, no_input}

-- A flag that is given or not.
abbrev pub flag : Bool → Text → List Text
flag given name = if given then name ∷ [] else []

-- Lines 213-218.
unfoldable pub source_args : CaseSpec → Option Text → Result BatchError (List Text)
source_args case input_path = elim case.corpus [
  | some corpus ↦ ok (codes "--resume-corpus" ∷ corpus ∷ [])
  | none ↦ elim input_path [ some input ↦ ok (codes "--input" ∷ input ∷ []) | none ↦ err no_input ]
]

abbrev pub interval_args : Option ℤ → List Text
interval_args none = []
interval_args (some interval) = codes "--checkpoint-interval" ∷ show_int interval ∷ []

module _ {float : Float} (cfg : GenerationConfig float) where
  -- Lines 185-212.
  unfoldable pub run_args : Text → List Text
  unfolding show_int
  run_args logdir =
      flag cfg.reduce_insts (codes "--reduce-insts")
      ++ (flag cfg.reduce_cover (codes "--reduce-cover")
          ++ codes "--max-run-timeout"
            ∷ show_int cfg.max_run_timeout
            ∷ codes "--max-iters"
            ∷ show_int cfg.max_iters
            ∷ codes "--top-pass"
            ∷ show_int cfg.top_pass
            ∷ codes "--selection"
            ∷ cfg.selection
            ∷ codes "--selection-diversity-weight"
            ∷ float.show cfg.selection_diversity_weight
            ∷ codes "--selection-pool-factor"
            ∷ show_int cfg.selection_pool_factor
            ∷ codes "--top-sus"
            ∷ show_int cfg.top_sus
            ∷ codes "--tracker-window-size"
            ∷ show_int cfg.tracker_window_size
            ∷ codes "--cover-distance-weight"
            ∷ float.show cfg.cover_distance_weight
            ∷ codes "--output"
            ∷ logdir
            ∷ [])

  -- Lines 219-244.
  unfoldable pub output_args : Text → Text → List Text
  unfolding show_int joined resolve_workdir_path join split_on
  output_args logdir workdir =
      (if cfg.save_corpus
        then codes "--save-corpus" ∷ joined logdir (codes "saved_corpus") ∷ []
        else [])
      ++ (interval_args cfg.checkpoint_interval
          ++ (flag cfg.gen_only (codes "--gen-only")
              ++ (flag cfg.save_reduce (codes "--save-reduce")
                  ++ (flag cfg.save_intermediate (codes "--save-intermediate")
                      ++ codes "--rtl-path"
                        ∷ resolve_workdir_path workdir cfg.rtl_path
                        ∷ codes "--include-paths"
                        ∷ join (codes ",") (
                            map (resolve_workdir_path workdir) (split_on b',' [] cfg.include_paths))
                        ∷ codes "--top-module"
                        ∷ cfg.top_module
                        ∷ codes "--top-scope"
                        ∷ cfg.top_scope
                        ∷ codes "--metric"
                        ∷ cfg.metric
                        ∷ []))))

  -- Lines 245-274: the mode's word and its options.
  unfoldable pub mode_args : Result BatchError (Text × List Text)
  unfolding show_int text_eq
  mode_args =
      if cfg.mode == codes "psbfl"
      then ok (
        codes "psbfl",
        codes "--mutator-window-size"
            ∷ show_int cfg.mutator_window_size
            ∷ codes "--mutator-weight-strategy"
            ∷ cfg.mutator_weight_strategy
            ∷ [],
      )
      else if cfg.mode == codes "random"
      then ok (codes "random", [])
      else if cfg.mode == codes "withw"
      then ok (
        codes "wit-hw",
        codes "--max-corpus-size"
            ∷ show_int cfg.max_corpus_size
            ∷ codes "--init-seed-rate"
            ∷ float.show cfg.init_seed_rate
            ∷ codes "--mutate-rate"
            ∷ float.show cfg.mutate_rate
            ∷ codes "--priority-alpha"
            ∷ float.show cfg.priority_alpha
            ∷ codes "--failed-reward"
            ∷ float.show cfg.failed_reward
            ∷ [],
      )
      else err (unsupported_mode cfg.mode)

  -- Lines 275-276.
  unfoldable pub simulator_part : List Text
  simulator_part = if is_empty cfg.simulator_args then [] else codes "--" ∷ cfg.simulator_args

  -- The whole command, in the order in which it is extended.
  unfoldable pub assembled : (logdir workdir : Text) → List Text → Text × List Text → List Text
  assembled logdir workdir source (word, options) =
      codes "-c"
        ∷ cfg.coverage
        ∷ codes "-s"
        ∷ cfg.state
        ∷ codes "generation"
        ∷ (run_args logdir ++ (source ++ output_args logdir workdir))
      ++ word ∷ options
      ++ simulator_part

  unfoldable pub generation_args :
      CaseSpec → (logdir workdir : Text) → Result BatchError (List Text)
  unfolding source_args mode_args assembled
  generation_args case logdir workdir = source_args case cfg.input_path >>= λ source.
      mode_args >>= λ mode. ok (assembled logdir workdir source mode)
