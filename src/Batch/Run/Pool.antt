-- ===== src/Batch/Run/Pool.antt =====
-- `_append_result` and the end of `run` of runner.py.
use ibex.Base.{ℕ, zero, suc, Bool, not, List, [], ◌∷◌, if◌then◌else◌, ◌==◌}
use ibex.Base.Int.{show_int}
use ibex.Base.Results.{Result, ok, err, ◌>>=◌, ◌>>◌}
use ibex.Base.Text.{Text, codes, text_eq}
use ibex.Batch.{Float, ExecutionConfig, GenerationConfig, CaseSpec, CaseResult}
use ibex.Batch.Paths.{case_paths}
use ibex.Batch.Run.{World, run_case}
use ibex.Batch.Validate.{BatchError, validate}

-- `_append_result`: the row's fields, in the order of GENERATION_FIELDS.
unfoldable pub result_row : CaseResult → List Text
unfolding show_int
result_row result =
    result.case.index
    ∷ result.case.rel_dir
    ∷ result.case.diff_name
    ∷ result.case.case_dir
    ∷ result.case.diff
    ∷ result.status
    ∷ show_int result.return_code
    ∷ result.elapsed
    ∷ result.logdir
    ∷ result.workdir
    ∷ []

-- The loop of `run` over the futures in the order in which they complete; a case that raised
-- ends it. The rows are those that were appended to the summary.
unfoldable pub collect :
    List (Result BatchError CaseResult) → Result BatchError (List CaseResult) × List (List Text)
unfolding result_row
collect [] = (ok [], [])
collect (err e ∷ futures) = (err e, [])
collect (ok result ∷ futures) =
    let (results, rows) = collect futures in
    (results >>= (λ rest. ok (result ∷ rest)), result_row result ∷ rows)

abbrev pub is_failed : CaseResult → Bool
is_failed result = not (result.status == codes "OK")

unfoldable pub count_failed : List CaseResult → ℕ
unfolding text_eq
count_failed [] = 0
count_failed (result ∷ results) =
    let rest = count_failed results in if is_failed result then suc rest else rest

module _ {float : Float} (world : CaseSpec → World) (execution : ExecutionConfig)
    (cfg : GenerationConfig float) (run_log_root work_root : Text) where
  -- What the future of a submitted case ends with, where `world` answers that case's calls; the
  -- index of a case tells it from the others.
  unfoldable pub submit : CaseSpec → Result BatchError CaseResult
  unfolding run_case case_paths
  submit case =
      let (logdir, workdir) = case_paths run_log_root work_root case in
      (run_case (world case) execution cfg case logdir workdir).0

  -- `[executor.submit(self._run_case, case) for case in self.cases]`
  unfoldable pub submit_all : List CaseSpec → List (Result BatchError CaseResult)
  unfolding submit
  submit_all [] = []
  submit_all (case ∷ cases) = submit case ∷ submit_all cases

  -- What `run` returns, behind `_validate`; `as_completed` gives the futures in the order in which
  -- they complete.
  unfoldable pub run :
      (as_completed : List (Result BatchError CaseResult) → List (Result BatchError CaseResult))
      (has_rtl tmp_inside : Bool)
      → List CaseSpec
      → Result BatchError ℕ
  unfolding validate submit_all collect count_failed
  run as_completed has_rtl tmp_inside cases =
      validate has_rtl tmp_inside execution cfg cases
      >> ((collect (as_completed (submit_all cases))).0
          >>= (λ results. ok (elim (count_failed results) [ zero ↦ 0 | suc n ↦ 1 ])))
