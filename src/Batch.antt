-- ===== src/Batch.antt =====
-- The dataclasses of tools/ibex_sbfl_batch/src/ibex_sbfl_batch/config.py. A path is its text in
-- pathlib's normal form. `time` and `datetime` values are arguments of what uses them.
pub mod Paths
pub mod Validate
pub mod Argv
pub mod LogParse
pub mod Run
pub mod Sweep
pub mod Statistics
use ibex.Base.{ℕ, Bool, Option, List}
use ibex.Base.Int.{ℤ}
use ibex.Base.Text.{Text}

-- What the batch runner uses of Python's float.
pub record Float : Type 1 where
  pub F : Type 0
  pub in_unit : F → Bool
  pub is_below_zero : F → Bool
  pub show : F → Text

pub record ExecutionConfig : Type 0 where
  pub ibex_home : Text
  pub logs_root : Text
  pub tmp_root : Text
  pub jobs : ℤ
  pub sbfl_bin : Text
  pub keep_workdir : Bool
  pub disassemble : Bool
  pub objdump_bin : Text
  pub dry_run : Bool

pub record GenerationConfig (float : Float) : Type 0 where
  pub mode : Text
  pub coverage : Text
  pub state : Text
  pub max_run_timeout : ℤ
  pub max_iters : ℤ
  pub top_pass : ℤ
  pub selection : Text
  pub selection_diversity_weight : float.F
  pub selection_pool_factor : ℤ
  pub top_sus : ℤ
  pub tracker_window_size : ℤ
  pub cover_distance_weight : float.F
  pub reduce_insts : Bool
  pub reduce_cover : Bool
  pub input_path : Option Text
  pub save_corpus : Bool
  pub checkpoint_interval : Option ℤ
  pub gen_only : Bool
  pub save_reduce : Bool
  pub save_intermediate : Bool
  pub rtl_path : Text
  pub include_paths : Text
  pub top_module : Text
  pub top_scope : Text
  pub metric : Text
  pub mutator_window_size : ℤ
  pub mutator_weight_strategy : Text
  pub max_corpus_size : ℤ
  pub init_seed_rate : float.F
  pub mutate_rate : float.F
  pub priority_alpha : float.F
  pub failed_reward : float.F
  pub simulator_args : List Text

pub record CaseSpec : Type 0 where
  pub index : Text
  pub rel_dir : Text
  pub diff : Text
  pub case_dir : Text
  pub diff_name : Text
  pub corpus : Option Text
  pub old_logdir : Option Text

pub record CaseResult : Type 0 where
  pub case : CaseSpec
  pub status : Text
  pub return_code : ℤ
  pub elapsed : Text
  pub logdir : Text
  pub workdir : Text
