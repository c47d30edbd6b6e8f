-- ===== src/Batch/Validate.antt =====
-- `GenerationRunner._validate` of runner.py.
use ibex.Base.{
  Bool, ◌&&◌, ◌||◌, not, none, some, List, [], ◌∷◌, contains, is_empty, if◌then◌else◌, ◌==◌,
}
use ibex.Base.Int.{is_positive, is_negative}
use ibex.Base.Results.{Result, ok, ◌>>◌, raise_if}
use ibex.Base.Text.{Text, codes, text_eq}
use ibex.Batch.{Float, ExecutionConfig, GenerationConfig, CaseSpec}

-- `SbflBatchError`, by its message.
pub data BatchError : Type 0 where
  jobs_not_positive : BatchError
  wrong_ibex_home : Text → BatchError
  tmp_inside_home : BatchError
  invalid_selection : Text → BatchError
  outside_unit : Text → BatchError
  pool_factor_not_positive : BatchError
  timeout_or_window : BatchError
  top_sus_negative : BatchError
  checkpoint_not_positive : BatchError
  checkpoint_without_corpus : BatchError
  save_reduce_without_insts : BatchError
  unsupported_mode : Text → BatchError
  mutator_window : BatchError
  weight_strategy : Text → BatchError
  corpus_size : BatchError
  reward_negative : BatchError
  no_cases : BatchError
  no_input : BatchError
  no_subcommand : BatchError
  no_mode : BatchError
  no_value : Text → BatchError
  no_option : Text → BatchError
  -- An OSError, which nothing in runner.py catches but that of `copy_workdir`.
  os_error : Text → BatchError

abbrev pub strategies : List Text
strategies =
    codes "uniform"
    ∷ codes "tail_linear"
    ∷ codes "tail_quad"
    ∷ codes "head_linear"
    ∷ codes "head_quad"
    ∷ []

module _ {float : Float} where
  -- Lines 136-140.
  unfoldable pub check_checkpoint : GenerationConfig float → Result BatchError (Unit {0})
  check_checkpoint cfg = elim cfg.checkpoint_interval [
    | none ↦ ok tt
    | some interval ↦
        raise_if (not (is_positive interval)) checkpoint_not_positive
        >> raise_if (not cfg.save_corpus) checkpoint_without_corpus
  ]

  -- Lines 145-164.
  unfoldable pub check_mode : GenerationConfig float → Result BatchError (Unit {0})
  unfolding text_eq
  check_mode cfg =
      if cfg.mode == codes "psbfl"
      then raise_if (not (is_positive cfg.mutator_window_size)) mutator_window
        >> raise_if (not (contains strategies cfg.mutator_weight_strategy))
            (weight_strategy cfg.mutator_weight_strategy)
      else if cfg.mode == codes "withw"
      then raise_if (not (is_positive cfg.max_corpus_size)) corpus_size
        >> raise_if (not (float.in_unit cfg.init_seed_rate)) (outside_unit (codes "init seed rate"))
        >> raise_if (not (float.in_unit cfg.mutate_rate)) (outside_unit (codes "mutate rate"))
        >> raise_if (not (float.in_unit cfg.priority_alpha)) (outside_unit (codes "priority alpha"))
        >> raise_if (float.is_below_zero cfg.failed_reward) reward_negative
      else ok tt

  -- Lines 116-144. `has_rtl` tells whether IBEX_HOME has the directory rtl, `tmp_inside` whether the run's
  -- temporary directory is below IBEX_HOME.
  unfoldable pub check_common :
      (has_rtl tmp_inside : Bool)
      → ExecutionConfig
      → GenerationConfig float
      → Result BatchError (Unit {0})
  unfolding check_checkpoint text_eq
  check_common has_rtl tmp_inside execution cfg =
      raise_if (not (is_positive execution.jobs)) jobs_not_positive
      >> raise_if (not has_rtl) (wrong_ibex_home execution.ibex_home)
      >> raise_if tmp_inside tmp_inside_home
      >> raise_if
          (not (contains (codes "random" ∷ codes "sort" ∷ codes "diverse" ∷ []) cfg.selection))
          (invalid_selection cfg.selection)
      >> raise_if (not (float.in_unit cfg.selection_diversity_weight))
          (outside_unit (codes "selection diversity weight"))
      >> raise_if (not (float.in_unit cfg.cover_distance_weight))
          (outside_unit (codes "cover distance weight"))
      >> raise_if (not (is_positive cfg.selection_pool_factor)) pool_factor_not_positive
      >> raise_if
          (not (is_positive cfg.max_run_timeout) || not (is_positive cfg.tracker_window_size))
          timeout_or_window
      >> raise_if (is_negative cfg.top_sus) top_sus_negative
      >> check_checkpoint cfg
      >> raise_if (cfg.save_reduce && not cfg.reduce_insts) save_reduce_without_insts
      >> raise_if (not (contains (codes "psbfl" ∷ codes "random" ∷ codes "withw" ∷ []) cfg.mode))
          (unsupported_mode cfg.mode)

  unfoldable pub validate :
      (has_rtl tmp_inside : Bool)
      → ExecutionConfig
      → GenerationConfig float
      → List CaseSpec
      → Result BatchError (Unit {0})
  unfolding check_common check_mode
  validate has_rtl tmp_inside execution cfg cases =
      check_common has_rtl tmp_inside execution cfg
      >> check_mode cfg
      >> raise_if (is_empty cases) no_cases
