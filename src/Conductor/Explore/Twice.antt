-- ===== src/Conductor/Explore/Twice.antt =====
-- The search of conductor.py without `--hard`.
use ibex.Base.{
  ◌≡◌, ◌≢◌, refl, sym, ap, ◌∙◌, true, false, List, [], ◌∷◌, append-nil, is_empty, All, ℕ, arith,
  Option,
}
use ibex.Base.Counts.{count}
use ibex.Base.Results.{err}
use ibex.Base.Text.{Text, text_eq}
use ibex.Conductor.Explore.{
  awaited_twice, Engines, build_one, race_split, build_block, build_props, build_children,
  build_strategy_rec, build_missing, construct_strategy, or_empty,
}
use ibex.Conductor.Split.{PropTree, nil, prop, tree, find_all}
use ibex.Conductor.Split.Leaves.{split_by_prefixes-leaves}
use ibex.Conductor.Strategy.{Strategy, missing_from}

module _ (engines : Engines) (step : ℕ)
    (prepared : (props : List Text) → engines.prepare_aiger step props ≡ true) where
  build_one-twice : (name : Text) → build_one engines false step name ≡ err awaited_twice
  unfolding build_one
  build_one-twice name = rw (prepared (name ∷ [])) refl

  build_props-twice :
      (t : PropTree) (names : List Text)
      → find_all t ≡ names
      → names ≢ []
      → build_props engines false step names t (build_children engines false step t)
        ≡ err awaited_twice
  unfolding build_children find_all build_block race_split
  build_props-twice t [] is some_left = absurd (some_left refl)
  build_props-twice t (name ∷ []) is some_left = build_one-twice name
  build_props-twice nil (name ∷ next ∷ names) is some_left = absurd (cc)
  build_props-twice (prop p rest) (name ∷ next ∷ names) is some_left = refl
  build_props-twice (tree sub nil) (name ∷ next ∷ names) is some_left =
      build_props-twice sub (find_all sub) refl
        (λ empty. absurd (some_left (sym is ∙ append-nil (find_all sub) ∙ empty)))
  build_props-twice (tree sub (prop p rest)) (name ∷ next ∷ names) is some_left = refl
  build_props-twice (tree sub (tree t rest)) (name ∷ next ∷ names) is some_left = refl

  build_missing-twice :
      (not_done : List Text)
      → not_done ≢ []
      → All (λ name. name ≢ []) not_done
      → build_missing engines false step not_done ≡ err awaited_twice
  unfolding build_missing build_strategy_rec count
  build_missing-twice [] some_left named = absurd (some_left refl)
  build_missing-twice (p ∷ not_done) some_left named =
      let (t, e, each) = split_by_prefixes-leaves (p ∷ not_done) named in
      rw (build_missing, e)
        (build_props-twice t (find_all t) refl (λ empty. lost (sym (each p) ∙ ap (count p) empty)))
    where
      lost : ◌≡◌ {A = ℕ} (count p (p ∷ not_done)) 0 → ⊥
      lost none_counted = ground (arith, none_counted)

  -- Without `--hard`, a step with a property that has no proof yet ends with the exception of a
  -- coroutine that is awaited twice, wherever aig-manip prepares the files; names are not empty.
  pub construct_strategy-twice :
      (loaded : Option (List Strategy)) (props : List Text)
      → missing_from (or_empty loaded) props ≢ []
      → All (λ name. name ≢ []) (missing_from (or_empty loaded) props)
      → construct_strategy engines false step loaded props ≡ err awaited_twice
  unfolding construct_strategy
  construct_strategy-twice loaded props some_left named =
      rw
        (
          construct_strategy,
          some_not_empty (missing_from (or_empty loaded) props) some_left,
          build_missing-twice (missing_from (or_empty loaded) props) some_left named,
        )
        refl
    where
      some_not_empty : (xs : List Text) → xs ≢ [] → is_empty xs ≡ false
      some_not_empty [] some_there = absurd (some_there refl)
      some_not_empty (x ∷ xs) some_there = refl
