-- ===== src/Batch/Sweep/Point.antt =====
-- `_commands`, `_run_point` without the lines it logs, `status_row`, `_write_combined_summary` and the end of `run` of sweep.py.
use ibex.Base.{
  ℕ, ◌≡◌, ◌↔◌, refl, Bool, true, false, ◌&&◌, not, Option, none, some, List, [], ◌∷◌, ◌++◌, map,
  if◌then◌else◌, ◌==◌, arith, All,
}
use ibex.Base.Int.{is_zero, ℤ, pos, show_int}
use ibex.Base.Results.{Result, ok, err}
use ibex.Base.Text.{Text, codes, text_eq, str}
use ibex.Batch.Paths.{joined}
use ibex.Batch.Sweep.{SweepError, interrupted, SweepConfig, SweepPoint, SweepResult}

abbrev optional_arg : Text → Option Text → List Text
optional_arg name none = []
optional_arg name (some value) = name ∷ value ∷ []

abbrev show_jobs : Option ℤ → Option Text
show_jobs none = none
show_jobs (some n) = some (show_int n)

-- `python` is `sys.executable`.
unfoldable pub run_command :
    (python : Text) → SweepConfig → SweepPoint → (sweep_logs sweep_tmp : Text) → List Text
unfolding str show_int
run_command python config point sweep_logs sweep_tmp =
    (python
      ∷ config.run_script
      ∷ (codes "--" ++ config.mode)
      ∷ config.target
      ∷ codes "--top-pass"
      ∷ str point.top_pass
      ∷ codes "--mutator-weight-strategy"
      ∷ point.weight_strategy
      ∷ codes "--mutator-window-size"
      ∷ str point.window_size
      ∷ codes "-t"
      ∷ sweep_tmp
      ∷ codes "-l"
      ∷ sweep_logs
      ∷ [])
    ++ (optional_arg (codes "-j") (show_jobs config.inner_jobs)
        ++ (optional_arg (codes "-w") config.workdir ++ config.forwarded_args))

unfoldable pub summary_command :
    (python : Text) → SweepConfig → (sweep_logs summary_tsv : Text) → List Text
unfolding show_int
summary_command python config sweep_logs summary_tsv =
    python
    ∷ config.summarize_script
    ∷ config.summary_bugset_root
    ∷ sweep_logs
    ∷ codes "-o"
    ∷ summary_tsv
    ∷ codes "--line-window"
    ∷ show_int config.line_window
    ∷ []

-- What happens while a point runs: whether the sweep is stopped before it and behind its run, the
-- return codes by command, and the time that passed.
pub record PointWorld : Type 0 where
  pub stopped_before : Bool
  pub stopped_after : Bool
  pub run_logged : List Text → ℤ
  pub elapsed : Text

unfoldable pub point_status : (run_rc summary_rc : ℤ) → Text
point_status run_rc summary_rc =
    if is_zero run_rc && is_zero summary_rc
    then codes "OK"
    else if not (is_zero summary_rc)
    then codes "SUMMARY_FAIL"
    else codes "RUN_FAIL"

unfoldable pub relative_path : SweepPoint → Text
unfolding str
relative_path point =
    codes "top_pass_"
    ++ (str point.top_pass
        ++ (codes "/strategy_"
            ++ (point.weight_strategy ++ (codes "/window_" ++ str point.window_size))))

unfoldable pub run_point :
    (python sweep_logs_root sweep_tmp_root : Text)
    → PointWorld
    → SweepConfig
    → SweepPoint
    → Result SweepError SweepResult
unfolding run_command summary_command point_status relative_path joined
run_point python sweep_logs_root sweep_tmp_root world config point =
    let sweep_root = joined sweep_logs_root (relative_path point) in
    let sweep_logs = joined sweep_root (codes "sbfl_logs") in
    let sweep_tmp = joined sweep_tmp_root (relative_path point) in
    let summary_tsv = joined sweep_root (codes "sbfl_block_summary.tsv") in
    let run_rc = world.run_logged (run_command python config point sweep_logs sweep_tmp) in
    let summary_rc =
      if world.stopped_after
      then pos 130
      else world.run_logged (summary_command python config sweep_logs summary_tsv) in
    if world.stopped_before
    then err interrupted
    else ok (record {
      point = point;
      status = point_status run_rc summary_rc;
      run_rc = run_rc;
      summary_rc = summary_rc;
      elapsed_time = world.elapsed;
      logs_root = sweep_logs;
      tmp_root = sweep_tmp;
      run_log = joined sweep_root (codes "run_bugset_psbfl.log");
      summary_log = joined sweep_root (codes "summarize_sbfl_blocks.log");
      summary_tsv = summary_tsv;
    })

unfoldable pub status_row : SweepResult → List Text
unfolding str show_int
status_row result =
    str result.point.top_pass
    ∷ result.point.weight_strategy
    ∷ str result.point.window_size
    ∷ result.status
    ∷ show_int result.run_rc
    ∷ show_int result.summary_rc
    ∷ result.elapsed_time
    ∷ result.logs_root
    ∷ result.tmp_root
    ∷ result.run_log
    ∷ result.summary_log
    ∷ result.summary_tsv
    ∷ []

abbrev pub empty_summary_fields : List Text
empty_summary_fields =
    codes "top_pass"
    ∷ codes "mutator_weight_strategy"
    ∷ codes "mutator_window_size"
    ∷ codes "bugset"
    ∷ codes "diff"
    ∷ codes "status"
    ∷ codes "top-k"
    ∷ codes "sus"
    ∷ codes "elapsed_time"
    ∷ codes "fuzzing_time"
    ∷ []

abbrev pub prefix_fields : List Text
prefix_fields =
    codes "top_pass" ∷ codes "mutator_weight_strategy" ∷ codes "mutator_window_size" ∷ []

-- A row of the status file: the three columns of its prefix, and the rows of the table that its
-- summary path names, where that is a file.
pub record StatusLine : Type 0 where
  pub prefix : List Text
  pub summary : Option (List (List Text))

-- The loop of `_write_combined_summary` over the status file; the flag is `header_written`.
unfoldable pub combine : Bool → List StatusLine → List (List Text)
combine header_written [] = if header_written then [] else empty_summary_fields ∷ []
combine header_written (line ∷ lines) = elim line.summary [
  | none ↦ combine header_written lines
  | some [] ↦ combine header_written lines
  | some (header ∷ rows) ↦
      let rest = map (λ row. line.prefix ++ row) rows ++ combine true lines in
      if header_written then rest else (prefix_fields ++ header) ∷ rest
]

unfoldable pub combined_summary : List StatusLine → List (List Text)
unfolding combine
combined_summary lines = combine false lines

-- `int(failed != 0)`
unfoldable pub sweep_exit : List SweepResult → ℕ
unfolding text_eq
sweep_exit [] = 0
sweep_exit (result ∷ results) =
    let rest = sweep_exit results in if result.status == codes "OK" then rest else 1

-- A sweep whose points all returned exits with 0 exactly if each ended with the status OK.
pub sweep_exit-zero :
    (results : List SweepResult)
    → (sweep_exit results ≡ 0) ↔ All (λ r. r.status ≡ codes "OK") results
unfolding sweep_exit
sweep_exit-zero [] = (λ _. tt, λ _. refl)
sweep_exit-zero (r ∷ results) = ground (arith, sweep_exit-zero results)
