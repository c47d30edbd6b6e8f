-- ===== src/Reranking/Scores.antt =====
-- Where the scores of `rank_candidates` come from.
use mathlib.Core.Option.{some-injective}
use ibex.Base.{
  ◌≡◌, refl, sym, ap, ◌∙◌, ◌⊎◌, inl, inr, some, List, [], ◌∷◌, String, string_eq, All, Among, arith,
  Bool-cases, ◌==◌,
}
use ibex.Base.Dict.{Dict, lookup, insert, lookup-insert}
use ibex.Base.Results.{Result, ok, Result-cases}
use ibex.Sbfl.{Candidate}
use ibex.Reranking.{
  Numbers, RerankError, Assessment, Checked, Scored, parse_suspiciousness, validate_scores,
  suspiciousness_of, entry, item, score_all,
}
use ibex.Reranking.Assessed.{
  HasSuspiciousness, parse_suspiciousness-ok, IsAssessed, collect_scores-IsAssessed,
  validate_scores-ok,
}

module _ (N : Numbers) where
  -- A value of the result is that of a candidate.
  abbrev pub IsSuspected : List Candidate → String → N.F → Type 0
  IsSuspected candidates id v =
      (c : Candidate) × Among c candidates × (c.candidate_id ≡ id) × HasSuspiciousness N c v

  suspiciousness_of-IsSuspected :
      (found final : Dict String N.F) (candidates : List Candidate)
      → suspiciousness_of N found candidates ≡ ok final
      → (id : String) (v : N.F) → lookup id final ≡ some v
      → (lookup id found ≡ some v) ⊎ IsSuspected candidates id v
  unfolding suspiciousness_of
  suspiciousness_of-IsSuspected found final [] h id v at = inl (ground (arith, at))
  suspiciousness_of-IsSuspected found final (c ∷ candidates) h id v at =
      elim (Result-cases (parse_suspiciousness N c)) [
        | inr (e, raised) ↦ absurd (ground (arith, h, raised))
        | inl (value, read) ↦
            elim (suspiciousness_of-IsSuspected (insert c.candidate_id value found) final candidates
              (rw (suspiciousness_of, read) at h) id v at) [
                | inr (d, i, same, has) ↦ inr (d, inr i, same, has)
                | inl there ↦
                    let where_at = lookup-insert id c.candidate_id value found in
                    elim (Bool-cases (id == c.candidate_id)) [
                      | inr e ↦ inl (ground (arith, where_at, there, e))
                      | inl e ↦
                          let is : some value ≡ some v = ground (arith, where_at, there, e) in
                          inr (
                            c,
                            inl refl,
                            ground (arith, e),
                            parse_suspiciousness-ok N c v
                                (read ∙ ap ok (some-injective value v is)),
                          )
                    ]
              ]
      ]

  -- The scores of a ranked item: those of an assessment and of a candidate that have its id,
  -- rounded, and the mean of them by the weight, rounded.
  abbrev pub IsScored : List Candidate → List (Assessment N) → N.F → Scored N → Type 0
  IsScored candidates assessments weight x =
      (s : N.F) × IsAssessed N assessments x.candidate.candidate_id s
      × ((v : N.F) × IsSuspected candidates x.candidate.candidate_id v
          × (x.llm_score ≡ N.round_12 s)
          × (x.sbfl_score ≡ N.round_12 v)
          × (x.final_score ≡ N.round_12 (N.add (N.mul weight s) (N.mul (N.one_minus weight) v))))

  entry-ok :
      {A : Type 0} (key : String) (d : Dict String A) (value : A)
      → entry N key d ≡ ok value
      → lookup key d ≡ some value
  unfolding entry
  entry-ok key d value h = ground arith

  pub score_all-step :
      (weight : N.F) (checked : Dict String (Checked N)) (sus : Dict String N.F) (c : Candidate)
      (candidates : List Candidate) (scored : List (Scored N))
      → score_all N weight checked sus (c ∷ candidates) ≡ ok scored
      → (a : Checked N) × (v : N.F) × (rest : List (Scored N)) × (lookup c.candidate_id checked
          ≡ some a)
        × (lookup c.candidate_id sus ≡ some v)
        × (score_all N weight checked sus candidates ≡ ok rest)
        × (item N weight c a v ∷ rest ≡ scored)
  unfolding score_all
  score_all-step weight checked sus c candidates scored h =
      elim (Result-cases (entry N c.candidate_id checked)) [
        | inr (e, raised) ↦ absurd (ground (arith, h, raised))
        | inl (a, at) ↦ elim (Result-cases (entry N c.candidate_id sus)) [
          | inr (e, raised) ↦ absurd (ground (arith, h, at, raised))
          | inl (v, found) ↦ elim (Result-cases (score_all N weight checked sus candidates)) [
            | inr (e, raised) ↦ absurd (ground (arith, h, at, found, raised))
            | inl (rest, all) ↦
                let is : ◌≡◌ {A = Result RerankError (List (Scored N))}
                    (ok (item N weight c a v ∷ rest)) (ok scored) =
                  rw (score_all, at, found, all) at h in
                (
                  a,
                  v,
                  rest,
                  entry-ok c.candidate_id checked a at,
                  entry-ok c.candidate_id sus v found,
                  all,
                  ok_inj _ _ is,
                )
          ]
        ]
      ]
    where
      ok_inj :
          (xs ys : List (Scored N))
          → ◌≡◌ {A = Result RerankError (List (Scored N))} (ok xs) (ok ys)
          → xs ≡ ys
      ok_inj xs ys e = cc

  item-IsScored :
      (candidates : List Candidate) (assessments : List (Assessment N)) (weight : N.F)
      (checked : Dict String (Checked N)) (sus : Dict String N.F)
      → validate_scores N candidates assessments ≡ ok checked
      → suspiciousness_of N [] candidates ≡ ok sus
      → (c : Candidate) (a : Checked N) (v : N.F) → lookup c.candidate_id checked ≡ some a
      → lookup c.candidate_id sus ≡ some v
      → IsScored candidates assessments weight (item N weight c a v)
  unfolding lookup
  item-IsScored candidates assessments weight checked sus valid parsed c a v at found =
      elim (collect_scores-IsAssessed N 1 [] checked assessments
        (validate_scores-ok N candidates assessments checked valid).0 c.candidate_id a at) [
          | inl nowhere ↦ absurd (ground (arith, nowhere))
          | inr assessed ↦
              elim (suspiciousness_of-IsSuspected [] sus candidates parsed c.candidate_id v found) [
                | inl nowhere ↦ absurd (ground (arith, nowhere))
                | inr suspected ↦ (a.score, assessed, (v, suspected, refl, refl, refl))
              ]
        ]

  pub score_all-IsScored :
      (candidates : List Candidate) (assessments : List (Assessment N)) (weight : N.F)
      (checked : Dict String (Checked N)) (sus : Dict String N.F)
      → validate_scores N candidates assessments ≡ ok checked
      → suspiciousness_of N [] candidates ≡ ok sus
      → (cs : List Candidate) (scored : List (Scored N))
      → score_all N weight checked sus cs ≡ ok scored
      → All (IsScored candidates assessments weight) scored
  unfolding score_all
  score_all-IsScored candidates assessments weight checked sus valid parsed [] [] h = tt
  score_all-IsScored candidates assessments weight checked sus valid parsed [] (x ∷ scored) h =
      absurd (ground (arith, h))
  score_all-IsScored candidates assessments weight checked sus valid parsed (c ∷ cs) scored h =
      let (a, v, rest, at, found, all, is) = score_all-step weight checked sus c cs scored h in
      rw (sym is) (
        item-IsScored candidates assessments weight checked sus valid parsed c a v at found,
        score_all-IsScored candidates assessments weight checked sus valid parsed cs rest all,
      )
