-- ===== src/RegressionCheck/UvmLog/Verdict.antt =====
-- When a log passes, and when the check itself breaks down.
use ibex.Base.{
  ℕ, suc, ◌≡◌, ◌≢◌, ◌↔◌, refl, ◌⊎◌, inl, inr, Bool, true, false, ◌||◌, ◌&&◌, not, Option, none,
  some, List, [], ◌∷◌, Bool-cases, Option-cases, arith, if◌then◌else◌,
}
use ibex.Base.Text.{Text}
use ibex.RegressionCheck.UvmLog.{
  FailureMode, no_failure, timeout, log_error, is_error_line, is_passed_line, is_failed_line,
  LogState, start, note_error, note_passed, scan, judge, Outcome, verdict, type_error,
  check_ibex_uvm_log, is_timeout_line, extract,
}

-- Some line passes the test.
abbrev pub some_line : (Text → Bool) → List Text → Bool
some_line test [] = false
some_line test (line ∷ lines) = test line || some_line test lines

-- Some line up to the first that gives a result, that line included, reports an error.
abbrev pub early_error : List Text → Bool
early_error [] = false
early_error (line ∷ lines) =
    is_error_line line || not (is_passed_line line || is_failed_line line) && early_error lines

-- What the loop leaves in its flags.
scan_flags :
    (linenum : ℕ) (s : LogState) (lines : List Text)
    → (scan linenum s lines).failed
      ≡ (s.failed || some_line is_failed_line lines || not s.test_result_seen && early_error lines)
unfolding scan note_error note_passed
scan_flags linenum s [] = ground arith
scan_flags linenum s (line ∷ lines) =
    ground (arith, scan_flags (suc linenum) (note_passed line (note_error linenum line s)) lines)

scan_passed :
    (linenum : ℕ) (s : LogState) (lines : List Text)
    → some_line is_failed_line lines ≡ false
    → (scan linenum s lines).passed ≡ (s.passed || some_line is_passed_line lines)
unfolding scan note_error note_passed
scan_passed linenum s [] h = ground arith
scan_passed linenum s (line ∷ lines) h =
    ground (arith, scan_passed (suc linenum) (note_passed line (note_error linenum line s)) lines)

-- The text of the last error line up to the first result, or else the given one.
abbrev pub last_early : Option Text → List Text → Option Text
last_early found [] = found
last_early found (line ∷ lines) =
    let found' = if is_error_line line then some line else found in
    if is_passed_line line || is_failed_line line then found' else last_early found' lines

abbrev error_text : LogState → Option Text
error_text s = elim s.error [ none ↦ none | some (_, line) ↦ some line ]

scan_error :
    (linenum : ℕ) (s : LogState) (lines : List Text)
    → error_text (scan linenum s lines)
      ≡ (if s.test_result_seen then error_text s else last_early (error_text s) lines)
unfolding scan note_error note_passed
scan_error linenum s [] = ground arith
scan_error linenum s (line ∷ lines) =
    ground (arith, scan_error (suc linenum) (note_passed line (note_error linenum line s)) lines)

pub early_error-last_early :
    (found : Option Text) (lines : List Text)
    → early_error lines ≡ false
    → last_early found lines ≡ found
early_error-last_early found [] h = refl
early_error-last_early found (line ∷ lines) h = ground (arith, early_error-last_early found lines)

pub last_early_some :
    (found : Option Text) (lines : List Text)
    → (early_error lines ≡ true) ⊎ (found ≢ none)
    → last_early found lines ≢ none
last_early_some found [] h = ground arith
last_early_some found (line ∷ lines) h =
    ground (arith, last_early_some (some line) lines, last_early_some found lines)

judge_passes :
    (log : List Text) (s : LogState)
    → (judge log s ≡ verdict true [] no_failure) ↔ ((s.failed ≡ false) × (s.passed ≡ true))
unfolding judge
judge_passes log s = ground arith

judge_breaks :
    (log : List Text) (s : LogState)
    → (judge log s ≡ type_error) ↔ ((s.failed ≡ true) × (error_text s ≡ none))
unfolding judge
judge_breaks log s = ground arith

-- The mode of a failure that is told by its error line.
abbrev pub mode_of : Text → FailureMode
mode_of line = if is_timeout_line line then timeout else log_error

judge_fails :
    (log : List Text) (s : LogState) (line : Text)
    → s.failed ≡ true
    → error_text s ≡ some line
    → (extracted : List Text) × (judge log s ≡ verdict false extracted (mode_of line))
unfolding judge
judge_fails log s line f e = elim (Option-cases s.error) [
  | inl no_error ↦ absurd (ground arith)
  | inr ((n, l), at) ↦ (extract n 1 log, ground arith)
]

module _ (log : List Text) where
  abbrev final : LogState
  final = scan 1 start log

  -- The test passes exactly if the log announces a pass, nowhere announces a failure, and reports
  -- no error up to its first announcement.
  pub check_ibex_uvm_log_passes_iff : (check_ibex_uvm_log log ≡ verdict true [] no_failure) ↔ (
      (some_line is_passed_line log ≡ true)
      × (some_line is_failed_line log ≡ false)
      × (early_error log ≡ false))
  unfolding check_ibex_uvm_log
  check_ibex_uvm_log_passes_iff = (
    λ h.
        let (f, p) = (judge_passes log final).0 h in
        let failed = scan_flags 1 start log in let passed = scan_passed 1 start log in ground arith,
    λ (p, f, e).
        (judge_passes log final).1
          (ground (arith, scan_flags 1 start log), ground (arith, scan_passed 1 start log f)),
  )

  -- The check raises a TypeError exactly if the log announces a failure and reports no error up
  -- to its first announcement.
  pub check_ibex_uvm_log_breaks_iff :
      (check_ibex_uvm_log log ≡ type_error)
      ↔ ((some_line is_failed_line log ≡ true) × (early_error log ≡ false))
  unfolding check_ibex_uvm_log
  check_ibex_uvm_log_breaks_iff = (
    λ h.
        let (f, e) = (judge_breaks log final).0 h in
        ground (arith, scan_flags 1 start log, scan_error 1 start log, last_early_some none log),
    λ (f, e). (judge_breaks log final).1 (
      ground (arith, scan_flags 1 start log),
      ground (arith, scan_error 1 start log, early_error-last_early none log e),
    ),
  )

  -- An error reported up to the first announcement fails the test, whatever is announced, and
  -- the last such line decides whether the failure counts as a timeout.
  pub check_ibex_uvm_log_fails :
      (line : Text)
      → last_early none log ≡ some line
      → (extracted : List Text) × (check_ibex_uvm_log log ≡ verdict false extracted (mode_of line))
  unfolding check_ibex_uvm_log
  check_ibex_uvm_log_fails line h =
      judge_fails log final line
        (elim (Bool-cases (early_error log)) [
          | inl e ↦ ground (arith, scan_flags 1 start log)
          | inr e ↦ absurd (ground (arith, early_error-last_early none log e))
        ])
        (ground (arith, scan_error 1 start log))

  -- A log without an announcement and without an error fails, but with no mode of a failure.
  pub check_ibex_uvm_log_silent :
      some_line is_passed_line log ≡ false
      → some_line is_failed_line log ≡ false
      → early_error log ≡ false
      → check_ibex_uvm_log log ≡ verdict false [] no_failure
  unfolding check_ibex_uvm_log judge
  check_ibex_uvm_log_silent p f e =
      ground (arith, scan_flags 1 start log, scan_passed 1 start log f)

-- A verdict of `true` carries no extract and no failure mode.
pub check_ibex_uvm_log_only_pass :
    (log extracted : List Text) (mode : FailureMode)
    → check_ibex_uvm_log log ≡ verdict true extracted mode
    → check_ibex_uvm_log log ≡ verdict true [] no_failure
unfolding check_ibex_uvm_log judge
check_ibex_uvm_log_only_pass log extracted mode h = ground arith

-- The three ways in which the check ends.
pub outcome_cases :
    (log : List Text)
    → (check_ibex_uvm_log log ≡ verdict true [] no_failure)
      ⊎ (check_ibex_uvm_log log ≡ type_error)
      ⊎ ((extracted : List Text) × (mode : FailureMode) × (check_ibex_uvm_log log
            ≡ verdict false extracted mode))
outcome_cases log = split (check_ibex_uvm_log log) refl
  where
    split :
        (o : Outcome)
        → check_ibex_uvm_log log ≡ o
        → (check_ibex_uvm_log log ≡ verdict true [] no_failure)
          ⊎ (check_ibex_uvm_log log ≡ type_error)
          ⊎ ((extracted : List Text) × (mode : FailureMode) × (check_ibex_uvm_log log
                ≡ verdict false extracted mode))
    split type_error h = inr (inl h)
    split (verdict true out mode) h = inl (check_ibex_uvm_log_only_pass log out mode h)
    split (verdict false out mode) h = inr (inr (out, mode, h))
