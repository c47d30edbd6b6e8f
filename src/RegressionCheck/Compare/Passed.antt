-- ===== src/RegressionCheck/Compare/Passed.antt =====
-- Which runs `compare_test_run` marks as passed.
use ibex.Base.{
  ◌≡◌, ◌≢◌, ◌↔◌, refl, ◌⊎◌, inl, inr, true, false, Option, none, some, List, [], Bool-cases,
  Option-cases, ◌∙◌, arith,
}
use ibex.Base.Text.{Text}
use ibex.RegressionCheck.UvmLog.{
  FailureMode, no_failure, timeout, file_error, log_error, is_passed_line, is_failed_line, verdict,
  type_error, check_ibex_uvm_log,
}
use ibex.RegressionCheck.UvmLog.Verdict.{
  some_line, early_error, last_early, early_error-last_early, last_early_some, mode_of,
  check_ibex_uvm_log_fails, check_ibex_uvm_log_silent, check_ibex_uvm_log_passes_iff, outcome_cases,
}
use ibex.RegressionCheck.Compare.{
  TestRunResult, FileRead, lines, os_error, TraceRun, returned, type_error_raised, compare_log,
  compare_test_run, log_message,
}

-- Behind the trace, the record is changed by the verdict alone.
log_passes :
    (log : List Text) (trr : TestRunResult)
    → check_ibex_uvm_log log ≡ verdict true [] no_failure
    → compare_log (lines log) trr ≡ returned (record trr { passed = some true })
unfolding compare_log
log_passes log trr h = rw (compare_log, h) refl

log_breaks :
    (log : List Text) (trr : TestRunResult)
    → check_ibex_uvm_log log ≡ type_error
    → compare_log (lines log) trr ≡ type_error_raised
unfolding compare_log
log_breaks log trr h = rw (compare_log, h) refl

log_fails :
    (log extracted : List Text) (mode : FailureMode) (trr : TestRunResult)
    → check_ibex_uvm_log log ≡ verdict false extracted mode
    → compare_log (lines log) trr
      ≡ returned (record trr {
        failure_mode = some mode;
        failure_message = some (log_message trr mode extracted);
      })
unfolding compare_log
log_fails log extracted mode trr h = rw (compare_log, h) refl

unread :
    (e : Text) (trr r : TestRunResult)
    → compare_log (os_error e) trr ≡ returned r
    → r.passed ≢ some true
unfolding compare_log
unread e trr r same = ground arith

compare_log-passed :
    (log : FileRead) (trr : TestRunResult)
    → trr.passed ≢ some true
    → ((r : TestRunResult) × (compare_log log trr ≡ returned r) × (r.passed ≡ some true)) ↔ (
        (text : List Text) × (log ≡ lines text)
        × (check_ibex_uvm_log text ≡ verdict true [] no_failure))
compare_log-passed (os_error e) trr h =
    (λ (r, same, p). absurd (unread e trr r same p), λ (text, same, c). absurd cc)
compare_log-passed (lines log) trr h = elim (outcome_cases log) [
  | inl pass ↦ (
    λ _. (log, refl, pass),
    λ _. (record trr { passed = some true }, log_passes log trr pass, refl),
  )
  | inr (inl breaks) ↦ (
    λ (r, same, p). absurd (ground (arith, log_breaks log trr breaks)),
    λ (text, same, c). absurd (ground (arith, c, breaks, same)),
  )
  | inr (inr (out, mode, fails)) ↦ (
    λ (r, same, p). absurd (ground (arith, log_fails log out mode trr fails)),
    λ (text, same, c). absurd (ground (arith, c, fails, same)),
  )
]

timed_out :
    (trace : TraceRun) (log : FileRead) (trr : TestRunResult)
    → trr.failure_mode ≡ some timeout
    → compare_test_run trace log trr ≡ returned (record trr { passed = some false })
unfolding compare_test_run
timed_out trace log trr h = rw h refl

untraced :
    (e : Text) (log : FileRead) (trr r : TestRunResult)
    → compare_test_run (some e) log trr ≡ returned r
    → r.passed ≢ some true
unfolding compare_test_run
untraced e log trr r same = ground arith

traced :
    (log : FileRead) (trr : TestRunResult)
    → trr.failure_mode ≢ some timeout
    → compare_test_run none log trr ≡ compare_log log trr
unfolding compare_test_run
traced log trr h = ground arith

is_some_timeout : (mode : Option FailureMode) → (mode ≡ some timeout) ⊎ (mode ≢ some timeout)
is_some_timeout none = inr (λ p. cc)
is_some_timeout (some timeout) = inl refl
is_some_timeout (some no_failure) = inr (λ p. cc)
is_some_timeout (some file_error) = inr (λ p. cc)
is_some_timeout (some log_error) = inr (λ p. cc)

-- A run that was not marked as passed before is marked as passed exactly if it did not time out,
-- its trace was processed, its log could be read, and the log announces a pass, nowhere a
-- failure, and no error up to its first announcement.
pub compare_test_run-passed_iff :
    (trace : TraceRun) (log : FileRead) (trr : TestRunResult)
    → trr.passed ≢ some true
    → ((r : TestRunResult) × (compare_test_run trace log trr ≡ returned r) × (r.passed ≡ some true))
      ↔ ((trr.failure_mode ≢ some timeout)
          × (trace ≡ none)
          × ((text : List Text) × (log ≡ lines text)
              × (some_line is_passed_line text ≡ true)
              × (some_line is_failed_line text ≡ false)
              × (early_error text ≡ false)))
compare_test_run-passed_iff trace log trr h = (
  λ (r, same, p). elim (is_some_timeout trr.failure_mode) [
    | inl late ↦ absurd (ground (arith, timed_out trace log trr late))
    | inr in_time ↦ elim (Option-cases trace) [
      | inl ran ↦
          let (text, at, pass) =
            (compare_log-passed log trr h).0 (r, ground (arith, traced log trr in_time), p) in
          let (p, f, e) = (check_ibex_uvm_log_passes_iff text).0 pass in
          (in_time, ran, (text, at, p, f, e))
      | inr (e, broke) ↦ absurd (untraced e log trr r (rw broke at same) p)
    ]
  ],
  λ (in_time, ran, (text, at, p, f, e)).
      let (r, same, q) =
        (compare_log-passed log trr h).1
          (text, at, (check_ibex_uvm_log_passes_iff text).1 (p, f, e)) in
      (r, rw ran (traced log trr in_time ∙ same), q),
)

-- The failure mode of a failing log: that of its last error up to the first announcement, and
-- none where no error is reported up to there.
abbrev pub failing_mode : List Text → FailureMode
failing_mode log = elim (last_early none log) [ none ↦ no_failure | some line ↦ mode_of line ]

fails_early :
    (log : List Text)
    → early_error log ≡ true
    → (extracted : List Text) × (check_ibex_uvm_log log
        ≡ verdict false extracted (failing_mode log))
fails_early log early = elim (Option-cases (last_early none log)) [
  | inl no_line ↦ absurd (last_early_some none log (inl early) no_line)
  | inr (line, at) ↦ rw (failing_mode, at) (check_ibex_uvm_log_fails log line at)
]

-- The failing logs on which the check does not break down: those that report an error up to the
-- first announcement, and those that announce nothing.
fails :
    (log : List Text)
    → (early_error log ≡ true)
      ⊎ ((some_line is_passed_line log ≡ false) × (some_line is_failed_line log ≡ false))
    → (extracted : List Text) × (check_ibex_uvm_log log
        ≡ verdict false extracted (failing_mode log))
fails log (inl early) = fails_early log early
fails log (inr (p, f)) = elim (Bool-cases (early_error log)) [
  | inl early ↦ fails_early log early
  | inr e ↦
      rw (failing_mode, early_error-last_early none log e) ([], check_ibex_uvm_log_silent log p f e)
]
