-- ===== src/Conductor/Prove/Loaded.antt =====
-- Where the strategies of `prove_mode` of conductor.py come from.
use ibex.Base.{
  Among, All-each, ℕ, suc, ◌≤◌, ◌≡◌, inl, inr, false, some, List, [], ◌∷◌, ◌++◌, ltb, is_empty, All,
  All-append, arith, Bool-cases, Option-cases,
}
use ibex.Base.Results.{ok, >>=-eq-ok}
use ibex.Base.Text.{Text, text_eq}
use ibex.Conductor.Strategy.{Strategy}
use ibex.Conductor.Prove.{Args, Calls, all_strategies}

-- The step stands in the strategy file of some step from --start on.
abbrev pub IsLoaded : Args → Calls → Strategy → Type 0
IsLoaded args calls s =
    (step : ℕ) × (strategy : List Strategy) × (args.start ≤ step)
    × (calls.load_strategy step ≡ some strategy)
    × Among s strategy

-- Each strategy that the loop hands on was read from a file.
pub all_strategies-IsLoaded :
    (args : Args) (calls : Calls) (step : ℕ) (by_step : List (List Text))
    (strategies : List Strategy)
    → args.by_step ≡ false
    → all_strategies args calls step by_step ≡ ok strategies
    → All (IsLoaded args calls) strategies
unfolding all_strategies
all_strategies-IsLoaded args calls step [] strategies later e = cc
all_strategies-IsLoaded args calls step (props ∷ by_step) strategies later e =
    elim (Bool-cases (ltb step args.start)) [
      | inl early ↦
          all_strategies-IsLoaded args calls (suc step) by_step strategies later
            (rw (all_strategies, early) at e)
      | inr in_range ↦ elim (Option-cases (calls.load_strategy step)) [
        | inl absent ↦
            all_strategies-IsLoaded args calls (suc step) by_step strategies later
              (rw (all_strategies, in_range, absent) at e)
        | inr (strategy, loaded) ↦ elim (Bool-cases (is_empty strategy)) [
          | inl nothing ↦
              all_strategies-IsLoaded args calls (suc step) by_step strategies later
                (rw (all_strategies, in_range, loaded, nothing) at e)
          | inr something ↦
              let (more, e_more, e_all) =
                >>=-eq-ok (all_strategies args calls (suc step) by_step)
                  (λ more. ok (strategy ++ more))
                  (rw (all_strategies, in_range, loaded, something, later) at e) in
              let all_eq : strategy ++ more ≡ strategies = cc in
              rw (← all_eq) (
                All-append (IsLoaded args calls) strategy more
                  (All-each (IsLoaded args calls) strategy
                    (λ s i. (step, strategy, ge_start in_range, loaded, i)))
                  (all_strategies-IsLoaded args calls (suc step) by_step more later e_more))
        ]
      ]
    ]
  where
    ge_start : ltb step args.start ≡ false → args.start ≤ step
    ge_start h = ground arith
