-- ===== src/ToolRequirements/Main.antt =====
-- `main` of check_tool_requirements.py, with its exit code.
pub mod Zero
use ibex.Base.{
  ℕ, Bool, true, false, ◌&&◌, not, List, [], ◌∷◌, contains, is_empty, ◌==◌, if◌then◌else◌,
}
use ibex.Base.Dict.{Dict}
use ibex.Base.Results.{Result, err, ok, ◌>>=◌}
use ibex.Base.Text.{Text, text_eq}
use ibex.ToolRequirements.{ToolReq, Machine, Versions}
use ibex.ToolRequirements.Check.{Crash, Message, check}
use ibex.ToolRequirements.Read.{Defined, ReqErr, read_tool_requirements}

-- `pending_tools.discard(tool)`
unfoldable pub discard : Text → List Text → List Text
discard tool [] = []
discard tool (pending ∷ tools) =
    if pending == tool then discard tool tools else pending ∷ discard tool tools

-- A tool that is not good is missing.
abbrev pub noted : Text → Bool → List Text × List Text → List Text × List Text
noted tool good (missing, left) = (if good then missing else tool ∷ missing, left)

-- `0 if all_good else 1`
abbrev pub exit_code : List Text × List Text → ℕ
exit_code (missing, pending) = if is_empty missing && is_empty pending then 0 else 1

module _ (versions : Versions) (machine : Machine) where
  -- The loop: the tools that are missing, and those of the command line that are still pending.
  unfoldable pub check_all : List Text → Dict Text ToolReq → Result Crash (List Text × List Text)
  unfolding discard check
  check_all pending [] = ok ([], pending)
  check_all pending ((tool, req) ∷ reqs) = elim (req.as_needed && not (contains pending tool)) [
    | true ↦ check_all pending reqs
    | false ↦ check versions machine req >>= λ result.
        check_all (discard tool pending) reqs >>= λ state. ok (noted tool (result.0) state)
  ]

  unfoldable pub main : List Text → Defined → Result Crash ℕ
  unfolding check_all read_tool_requirements
  main tools source = elim (read_tool_requirements source) [
    | err e ↦ ok 1
    | ok reqs ↦ check_all tools reqs >>= λ state. ok (exit_code state)
  ]
