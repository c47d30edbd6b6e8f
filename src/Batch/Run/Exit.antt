-- ===== src/Batch/Run/Exit.antt =====
-- What `run` returns.
use ibex.Base.{ℕ, zero, suc, ◌≡◌, true, false, ◌&&◌, ◌==◌, Bool, List}
use ibex.Base.Results.{Result, ok, err, ◌>>=◌}
use ibex.Base.Text.{codes, text_eq}
use ibex.Batch.{CaseResult}
use mathlib.Core.List.{Perm, foldr}
use mathlib.Core.List.Perm
use ibex.Base.Text.{Text}
use ibex.Batch.Validate.{BatchError}
use ibex.Batch.Run.Pool.{count_failed}

-- The future of a case that ended with the status OK.
abbrev IsOk : Result BatchError CaseResult → Type 0
IsOk future = (r : CaseResult) × (future ≡ ok r) × (r.status ≡ codes "OK")

-- The exit code behind the loop.
abbrev exit_code : Result BatchError (List CaseResult) → Result BatchError ℕ
exit_code results = results >>= (λ rs. ok (elim (count_failed rs) [ zero ↦ 0 | suc n ↦ 1 ]))

abbrev ended_ok : Result BatchError CaseResult → Bool
ended_ok (err e) = false
ended_ok (ok result) = result.status == codes "OK"

abbrev all_ok : List (Result BatchError CaseResult) → Bool
all_ok = foldr (λ future rest. ended_ok future && rest) true
