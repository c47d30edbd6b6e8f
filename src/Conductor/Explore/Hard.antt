-- ===== src/Conductor/Explore/Hard.antt =====
-- The search of conductor.py with `--hard`.
use ibex.Base.{
  ◌≡◌, ◌⊎◌, refl, sym, ap, ◌∙◌, inl, inr, Bool, true, false, ◌||◌, List, [], ◌∷◌, ◌++◌,
  append_assoc, append-nil, contains-cases, is_empty, All, All-append, All-implies, ℕ, arith,
  Option, some, none, Bool-cases, contains,
}
use ibex.Base.Int.{ℤ, pos}
use ibex.Base.Results.{ok}
use ibex.Base.Text.{Text, text_eq}
use ibex.Conductor.Explore.{
  Engines, kind_engine, is_decided, explore, of_one, build_one, gather, build_strategy_rec,
  build_missing, construct_strategy, or_empty,
}
use ibex.Conductor.Prove.{is_unsat}
use ibex.Conductor.Strategy.{Strategy, done_props, missing_from}
use ibex.Conductor.Strategy.File.{contains-append, contains-missing_from}

-- Two lists of properties have this one in them.
abbrev either : List Strategy → List Text → Text → Bool
either strategy failures p = contains (done_props strategy) p || contains failures p

decided_not_unsat :
    (code : Option ℤ) → is_decided code ≡ true → is_unsat code ≡ false → code ≡ some (pos 10)
decided_not_unsat (some (pos n)) decided unsat = ground (arith, decided, unsat)
decided_not_unsat none decided unsat = cc
decided_not_unsat (some (ℤ.negsuc n)) decided unsat = cc

done_props-append : (xs ys : List Strategy) → done_props (xs ++ ys) ≡ done_props xs ++ done_props ys
unfolding done_props
done_props-append [] ys = refl
done_props-append (x ∷ xs) ys =
    ap (λ l. x.props ++ l) (done_props-append xs ys)
    ∙ sym (append_assoc x.props (done_props xs) (done_props ys))

either-append :
    (p : Text) (s t : List Strategy) (f g : List Text)
    → either (s ++ t) (f ++ g) p ≡ (either s f p || either t g p)
either-append p s t f g =
    rw
      (
        done_props-append s t,
        contains-append (done_props s) (done_props t) p,
        contains-append f g p,
      )
      (ground arith)

All-contains :
    (P : Text → Type 0) (p : Text) (xs : List Text) → All P xs → contains xs p ≡ true → P p
All-contains P p [] h there = cc
All-contains P p (x ∷ xs) (h, hs) there = elim (contains-cases x xs p there) [
  | inl same ↦ rw same h
  | inr later ↦ All-contains P p xs hs later
]

module _ (engines : Engines) (step : ℕ)
    (prepared : (props : List Text) → engines.prepare_aiger step props ≡ true) where
  -- An engine found a counterexample to the property.
  abbrev pub IsRefuted : Text → Type 0
  IsRefuted p = (engines.shell kind_engine step (p ∷ [])).code ≡ some (pos 10)

  -- The property has a proof in the strategy, or it is a failure, or it does not hold.
  abbrev pub IsAccounted : List Strategy → List Text → Text → Type 0
  IsAccounted strategy failures p = (either strategy failures p ≡ true) ⊎ IsRefuted p

  -- A strategy that the engine proved.
  abbrev pub IsProven : Strategy → Type 0
  IsProven s =
      (is_unsat s.procres.code ≡ true)
      × (s.procres ≡ engines.shell s.config step s.props)
      × (s.step ≡ step)

  build_one-hard :
      (p : Text)
      → (strategy : List Strategy) × (failures : List Text) × (build_one engines true step p
          ≡ ok (strategy, failures))
        × IsAccounted strategy failures p
        × All IsProven strategy
  unfolding build_one explore done_props
  build_one-hard p =
      let code = (engines.shell kind_engine step (p ∷ [])).code in
      elim (Bool-cases (is_decided code)) [
        | inr e ↦ ([], p ∷ [], rw (prepared (p ∷ []), e) refl, inl (itself p), tt)
        | inl e ↦ elim (Bool-cases (is_unsat code)) [
          | inl u ↦ (
            record {
              step = step;
              props = p ∷ [];
              config = kind_engine;
              procres = engines.shell kind_engine step (p ∷ []);
            }
                ∷ [],
            [],
            rw (prepared (p ∷ []), e, of_one, u) refl,
            inl (itself_first p),
            ((u, refl, refl), tt),
          )
          | inr u ↦ (
            [],
            [],
            rw (prepared (p ∷ []), e, of_one, u) refl,
            inr (decided_not_unsat code e u),
            tt,
          )
        ]
      ]
    where
      itself : (p : Text) → (false || contains (p ∷ []) p) ≡ true
      itself p = ground arith

      itself_first : (p : Text) → (contains (p ∷ []) p || false) ≡ true
      itself_first p = ground arith

  IsAccounted-left :
      (p : Text) (s t : List Strategy) (f g : List Text)
      → IsAccounted s f p
      → IsAccounted (s ++ t) (f ++ g) p
  IsAccounted-left p s t f g (inl there) = inl (rw (either-append p s t f g, there) refl)
  IsAccounted-left p s t f g (inr refuted) = inr refuted

  IsAccounted-right :
      (p : Text) (s t : List Strategy) (f g : List Text)
      → IsAccounted t g p
      → IsAccounted (s ++ t) (f ++ g) p
  IsAccounted-right p s t f g (inl there) = inl (either-append p s t f g ∙ rw there (ground arith))
  IsAccounted-right p s t f g (inr refuted) = inr refuted

  -- `gather` of the searches for each property.
  build_all-hard :
      (props : List Text)
      → (strategy : List Strategy) × (failures : List Text) × (build_missing engines true step props
          ≡ ok (strategy, failures))
        × All (IsAccounted strategy failures) props
        × All IsProven strategy
  unfolding build_missing gather build_strategy_rec
  build_all-hard [] = ([], [], refl, tt, tt)
  build_all-hard (p ∷ props) =
      let (s, f, e, accounted, proven) = build_one-hard p in
      let (t, g, e1, others, rest) = build_all-hard props in
      (
        s ++ t,
        f ++ g,
        rw (e, e1) refl,
        (
          IsAccounted-left p s t f g accounted,
          All-implies (IsAccounted t g) (IsAccounted (s ++ t) (f ++ g))
              (λ q h. IsAccounted-right q s t f g h) props others,
        ),
        All-append IsProven s t proven rest,
      )

  IsAccounted-all :
      (strategy found : List Strategy) (failures props : List Text)
      → All (IsAccounted found failures) (missing_from strategy props)
      → (p : Text) → contains props p ≡ true
      → IsAccounted (strategy ++ found) failures p
  IsAccounted-all strategy found failures props each p there =
      elim (Bool-cases (contains (done_props strategy) p)) [
        | inl e ↦ IsAccounted-left p strategy found [] failures (inl (rw e refl))
        | inr e ↦ IsAccounted-right p strategy found [] failures (
            All-contains (IsAccounted found failures) p (missing_from strategy props) each
              (contains-missing_from strategy props p ∙ rw (there, e) refl))
      ]

  -- With `--hard`, and wherever aig-manip prepares the files, a strategy is constructed: it extends
  -- the one that was loaded by strategies that an engine proved, and each property of the step has
  -- a proof in it, is among the failures, or was refuted by a counterexample.
  pub construct_strategy-hard :
      (loaded : Option (List Strategy)) (props : List Text)
      → (new : Bool) × (found : List Strategy) × (failures : List Text) × (construct_strategy
            engines true step loaded props
          ≡ ok (new, or_empty loaded ++ found, failures))
        × All IsProven found
        × ((p : Text) → contains props p ≡ true → IsAccounted (or_empty loaded ++ found) failures p)
  unfolding construct_strategy
  construct_strategy-hard loaded props =
      let strategy = or_empty loaded in
      let not_done = missing_from strategy props in
      elim (Bool-cases (is_empty not_done)) [
        | inl e ↦ (
          false,
          [],
          [],
          rw (construct_strategy, e, append-nil strategy) refl,
          tt,
          IsAccounted-all strategy [] [] props (none_left (IsAccounted [] []) not_done e),
        )
        | inr e ↦
            let (found, failures, e1, each, proven) = build_all-hard not_done in
            (
              true,
              found,
              failures,
              rw (construct_strategy, e, e1) refl,
              proven,
              IsAccounted-all strategy found failures props each,
            )
      ]
    where
      none_left : (P : Text → Type 0) (xs : List Text) → is_empty xs ≡ true → All P xs
      none_left P [] e = tt
      none_left P (x ∷ xs) e = cc
