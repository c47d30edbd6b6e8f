-- ===== src/RegressionCheck/Compare.antt =====
-- `compare_test_run` of dv/uvm/core_ibex/scripts/check_logs.py, over the fields of `TestRunResult`
-- that it reads or writes.
pub mod Passed
use ibex.Base.{
  ℕ, ◌≡◌, refl, Bool, true, false, Option, none, some, List, [], ◌∷◌, ◌++◌, is_empty, if◌then◌else◌,
}
use ibex.Base.Text.{Text, codes, str, join}
use ibex.RegressionCheck.UvmLog.{
  FailureMode, no_failure, timeout, file_error, log_error, verdict, type_error, check_ibex_uvm_log,
}

pub record TestRunResult : Type 0 where
  pub passed : Option Bool
  pub failure_mode : Option FailureMode
  pub failure_message : Option Text
  pub timeout_s : Option ℕ
  pub rtl_log_name : Text

-- What reading a file gives: its lines, or the text of the OSError (IOError) that it raises.
pub data FileRead : Type 0 where
  lines : List Text → FileRead
  os_error : Text → FileRead

-- How `process_ibex_sim_log` ends: normally, or by an OSError or RuntimeError with its text.
abbrev pub TraceRun : Type 0
TraceRun = Option Text

-- The returned record, or a TypeError that nothing catches.
pub data Compared : Type 0 where
  returned : TestRunResult → Compared
  type_error_raised : Compared

abbrev is_timeout : Option FailureMode → Bool
is_timeout (some timeout) = true
is_timeout _ = false

-- `f"{trr.timeout_s}"`
abbrev show_timeout : Option ℕ → Text
show_timeout none = codes "None"
show_timeout (some n) = str n

unfoldable pub base_message : TestRunResult → FailureMode → Text
unfolding str
base_message trr timeout =
    codes "[FAILURE] Simulation ended gracefully due to timeout ["
    ++ (show_timeout trr.timeout_s ++ codes "s].\n")
base_message trr _ = codes "\n[FAILED]: error seen in '" ++ (trr.rtl_log_name ++ codes "'\n")

unfoldable pub log_message : TestRunResult → FailureMode → List Text → Text
unfolding base_message join
log_message trr mode log_lines =
    if is_empty log_lines
    then base_message trr mode
    else base_message trr mode
      ++ (codes "---------------*LOG-EXTRACT*----------------\n"
          ++ (join (codes "\n") log_lines
              ++ (codes "\n" ++ codes "--------------------------------------------\n")))

-- The part behind the trace: the UVM log is read and judged.
unfoldable pub compare_log : FileRead → TestRunResult → Compared
unfolding check_ibex_uvm_log log_message
compare_log (os_error e) trr = returned (record trr {
  passed = some false;
  failure_mode = some file_error;
  failure_message = some (codes "[FAILED] Could not open simulation log: " ++ (e ++ codes "\n"));
})
compare_log (lines log) trr = elim (check_ibex_uvm_log log) [
  | type_error ↦ type_error_raised
  | verdict true log_out mode ↦ returned (record trr { passed = some true })
  | verdict false log_out mode ↦ returned (record trr {
    failure_mode = some mode;
    failure_message = some (log_message trr mode log_out);
  })
]

unfoldable pub compare_test_run : TraceRun → FileRead → TestRunResult → Compared
unfolding compare_log
compare_test_run trace log trr =
    if is_timeout trr.failure_mode
    then returned (record trr { passed = some false })
    else elim trace [
      | some e ↦ returned (record trr {
        passed = some false;
        failure_mode = some file_error;
        failure_message =
            some (codes "[FAILED]: Processing the ibex trace failed: " ++ (e ++ codes "\n"));
      })
      | none ↦ compare_log log trr
    ]
