-- ===== src/RegressionCheck/UvmLog.antt =====
-- `check_ibex_uvm_log` of dv/uvm/core_ibex/riscv_dv_extension/ibex_log_to_trace_csv.py.
-- The log is its list of lines.
pub mod Verdict
use ibex.Base.{
  ℕ, zero, suc, ◌+◌, ◌-◌, Bool, true, false, ◌||◌, ◌&&◌, not, Option, none, some, List, [], ◌∷◌,
  ◌++◌, ltb, leb, nat_eqb, if◌then◌else◌,
}
use ibex.Base.Text.{Text, codes, has_substring, strip, str}

-- `Failure_Modes` of scripts/test_run_result.py.
pub data FailureMode : Type 0 where
  no_failure timeout file_error log_error : FailureMode

unfoldable pub is_error_line : Text → Bool
unfolding has_substring
is_error_line line =
    has_substring (codes "UVM_ERROR") line
    || has_substring (codes "UVM_FATAL") line
    || has_substring (codes "Error") line

unfoldable pub is_passed_line : Text → Bool
unfolding has_substring
is_passed_line line = has_substring (codes "RISC-V UVM TEST PASSED") line

unfoldable pub is_failed_line : Text → Bool
unfolding has_substring
is_failed_line line = has_substring (codes "RISC-V UVM TEST FAILED") line

unfoldable pub is_timeout_line : Text → Bool
unfolding has_substring
is_timeout_line line = has_substring (codes "Test failed due to wall-clock timeout.") line

-- The variables of the loop. `error` is `error_linenum` and `error_line`.
pub record LogState : Type 0 where
  pub passed : Bool
  pub failed : Bool
  pub error : Option (ℕ × Text)
  pub test_result_seen : Bool

abbrev pub start : LogState
start = record { passed = false; failed = false; error = none; test_result_seen = false }

-- The first `if` of the loop's body.
unfoldable pub note_error : ℕ → Text → LogState → LogState
note_error linenum line s =
    if is_error_line line && not s.test_result_seen
    then record s { failed = true; error = some (linenum, line) }
    else s

-- The second.
unfoldable pub note_passed : Text → LogState → LogState
note_passed line s =
    if is_passed_line line then record s { passed = true; test_result_seen = true } else s

unfoldable pub scan : ℕ → LogState → List Text → LogState
unfolding note_error note_passed
scan linenum s [] = s
scan linenum s (line ∷ lines) =
    let s' = note_passed line (note_error linenum line s) in
    elim (is_failed_line line) [
      | true ↦ record s' { failed = true; test_result_seen = true }
      | false ↦ scan (suc linenum) s' lines
    ]

-- The lines from five before the error to four behind it, numbered, the error's marked.
unfoldable pub extract : ℕ → ℕ → List Text → List Text
unfolding strip str
extract error_linenum linenum [] = []
extract error_linenum linenum (line ∷ lines) =
    let rest = extract error_linenum (suc linenum) lines in
    if leb error_linenum (linenum + 5) && ltb linenum (error_linenum + 5)
    then ((if nat_eqb linenum error_linenum then codes "[E] " else codes "    ")
        ++ (str linenum ++ (codes ": " ++ strip line)))
      ∷ rest
    else rest

-- The returned tuple, or the TypeError of `in` on an `error_line` that is still None.
pub data Outcome : Type 0 where
  verdict : (passed : Bool) (log_out : List Text) (failure_mode : FailureMode) → Outcome
  type_error : Outcome

unfoldable pub judge : List Text → LogState → Outcome
unfolding extract is_timeout_line
judge log s =
    if s.failed
    then elim s.error [
      | none ↦ type_error
      | some (error_linenum, error_line) ↦
          verdict false (extract error_linenum 1 log)
            (if is_timeout_line error_line then timeout else log_error)
    ]
    else verdict s.passed [] no_failure

unfoldable pub check_ibex_uvm_log : List Text → Outcome
unfolding scan judge
check_ibex_uvm_log log = judge log (scan 1 start log)
