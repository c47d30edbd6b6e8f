-- ===== src/Examples/Regression.antt =====
-- Short UVM logs for dv/uvm/core_ibex check_logs.py.
use ibex.Base.{◌≡◌, ◌≢◌, ◌↔◌, true, false, some, none, List, [], ◌∷◌}
use ibex.Base.Text.{Text, codes}
use ibex.RegressionCheck.UvmLog.{
  no_failure, timeout, is_passed_line, is_failed_line, verdict, type_error, check_ibex_uvm_log,
}
use ibex.RegressionCheck.UvmLog.Verdict.{
  some_line, early_error, check_ibex_uvm_log_passes_iff, check_ibex_uvm_log_breaks_iff,
}
use ibex.RegressionCheck.Compare.{TestRunResult, TraceRun, lines, returned, compare_test_run}
use ibex.RegressionCheck.Compare.Passed.{compare_test_run-passed_iff}

abbrev passing : List Text
passing = codes "UVM_INFO start" ∷ codes "RISC-V UVM TEST PASSED" ∷ []

abbrev failing : List Text
failing = codes "UVM_ERROR mismatch" ∷ codes "RISC-V UVM TEST FAILED" ∷ []

abbrev processed : TraceRun
processed = none

abbrev fresh : TestRunResult
fresh = record {
  passed = none;
  failure_mode = none;
  failure_message = none;
  timeout_s = some 1800;
  rtl_log_name = codes "rtl_sim.log";
}

check_ibex_uvm_log_passes_iff_example :
    (check_ibex_uvm_log passing ≡ verdict true [] no_failure) ↔ (
      (some_line is_passed_line passing ≡ true)
      × (some_line is_failed_line passing ≡ false)
      × (early_error passing ≡ false))
check_ibex_uvm_log_passes_iff_example = check_ibex_uvm_log_passes_iff passing

check_ibex_uvm_log_breaks_iff_example :
    (check_ibex_uvm_log failing ≡ type_error)
    ↔ ((some_line is_failed_line failing ≡ true) × (early_error failing ≡ false))
check_ibex_uvm_log_breaks_iff_example = check_ibex_uvm_log_breaks_iff failing

compare_test_run-passed_iff_example :
    ((r : TestRunResult) × (compare_test_run processed (lines passing) fresh ≡ returned r)
      × (r.passed ≡ some true))
    ↔ ((fresh.failure_mode ≢ some timeout)
        × (processed ≡ none)
        × ((text : List Text) × (lines passing ≡ lines text)
            × (some_line is_passed_line text ≡ true)
            × (some_line is_failed_line text ≡ false)
            × (early_error text ≡ false)))
compare_test_run-passed_iff_example =
    compare_test_run-passed_iff processed (lines passing) fresh (λ p. cc)

abbrev passed_before : TestRunResult
passed_before = record fresh { passed = some true }
