-- ===== src/Conductor/Modes.antt =====
-- `explore_mode`, `info_mode` and the depths of `bmc_mode` of conductor.py.
pub mod Accounted
pub mod Depths
use ibex.Base.{
  ℕ, zero, suc, ◌+◌, Bool, true, false, ◌||◌, ◌&&◌, not, Option, none, some, List, [], ◌∷◌, ◌++◌,
  map, length, ltb, nat_eqb, contains, get_elem?, if◌then◌else◌,
}
use ibex.Base.Results.{Result, err, ok, ◌>>=◌}
use ibex.Base.Text.{Text, text_eq}
use ibex.Conductor.{ProcessResult}
use ibex.Conductor.Explore.{ExploreError, of_prove, Engines, construct_strategy, or_empty}
use ibex.Conductor.Prove.{ProveError, Calls, run_strategy}
use ibex.Conductor.Strategy.{Strategy, done_props}

-- The arguments of the command line that the modes read.
pub record ModeArgs : Type 0 where
  pub start : ℕ
  pub hard : Bool
  pub no_run : Bool
  pub bmc_start : ℕ
  pub bmc_step : ℕ

abbrev lift_prove : {A : Type 0} → Result ProveError A → Result ExploreError A
lift_prove (err e) = err (of_prove e)
lift_prove (ok x) = ok x

module _ (args : ModeArgs) (engines : Engines) (calls : Calls) where
  -- `new`, the strategy and the failures of a step, and the run of the strategy behind them, of
  -- which only an exception is seen.
  unfoldable pub explore_step : ℕ → List Text → Result ExploreError (List Text)
  unfolding construct_strategy run_strategy
  explore_step step props =
      construct_strategy engines args.hard step (calls.load_strategy step) props
      >>= (λ (new, strategy, failures).
          if not args.no_run && (not new || not (nat_eqb (length strategy) 1))
          then lift_prove (run_strategy calls strategy) >>= (λ _. ok failures)
          else ok failures)

  -- `explore_mode` from a step on, and `all_failures` behind it.
  unfoldable pub explore_mode : ℕ → List (List Text) → Result ExploreError (List Text)
  unfolding explore_step
  explore_mode step [] = ok []
  explore_mode step (props ∷ by_step) =
      let rest = explore_mode (suc step) by_step in
      if ltb step args.start
      then rest
      else explore_step step props >>= (λ failures. rest >>= (λ others. ok (failures ++ others)))

-- The loop of `info_mode` over the properties of a step.
unfoldable pub unaccounted : List Text → List Text → List Text
unfolding text_eq
unaccounted accounted_for [] = []
unaccounted accounted_for (prop ∷ props) =
    let rest = unaccounted accounted_for props in
    if contains accounted_for prop then rest else prop ∷ rest

-- What `info_mode` reports of a step: its strategies, its skipped properties, and those without a
-- strategy.
pub record StepInfo : Type 0 where
  pub strategy : List Strategy
  pub skipped : List Text
  pub missing : List Text

abbrev at_step : ℕ → List (List Text) → List Text
at_step step by_step = elim (get_elem? by_step step) [ some props ↦ props | none ↦ [] ]

-- `info_mode` from a step on; `main` makes `by_step_skipped` as long as `by_step`.
unfoldable pub info_steps :
    (ℕ → Option (List Strategy)) → ℕ → (by_step by_step_skipped : List (List Text)) → List StepInfo
unfolding unaccounted done_props
info_steps load_strategy step [] by_step_skipped = []
info_steps load_strategy step (props ∷ by_step) by_step_skipped =
    let strategy = or_empty (load_strategy step) in
    record {
      strategy = strategy;
      skipped = at_step step by_step_skipped;
      missing = unaccounted (done_props strategy) props;
    }
    ∷ info_steps load_strategy (suc step) by_step by_step_skipped

unfoldable pub total_steps : List StepInfo → ℕ
total_steps [] = 0
total_steps (info ∷ infos) = length info.strategy + total_steps infos

-- A call of `bmc`: the step, the property, and the first and the last depth, if there is one.
pub record BmcCall : Type 0 where
  pub step : ℕ
  pub prop : Text
  pub first : ℕ
  pub last : Option ℕ

abbrev pub calls_at : ℕ → List (ℕ × Text) → List BmcCall
calls_at i props =
    map (λ (step, prop). record { step = step; prop = prop; first = i; last = some i }) props

-- The first so many rounds of `while True`, which has no end, from the depth `i` on.
unfoldable pub bmc_rounds : ModeArgs → ℕ → ℕ → List (ℕ × Text) → List BmcCall
bmc_rounds args zero i props = []
bmc_rounds args (suc rounds) i props =
    calls_at i props ++ bmc_rounds args rounds (i + args.bmc_step) props

-- `bmc_mode`, with no more than so many rounds.
unfoldable pub bmc_mode : ModeArgs → ℕ → List (ℕ × Text) → List BmcCall
unfolding bmc_rounds
bmc_mode args rounds [] = []
bmc_mode args rounds ((step, prop) ∷ []) =
    record { step = step; prop = prop; first = args.bmc_start; last = none } ∷ []
bmc_mode args rounds (p ∷ q ∷ props) = bmc_rounds args rounds args.bmc_start (p ∷ q ∷ props)
