-- ===== src/Reranking/Order.antt =====
-- What `rank_candidates` returns.
use mathlib.Core.List.{Perm}
use mathlib.Core.List.Perm
use mathlib.Core.Path.{subst}
use ibex.Base.{
  ℕ, suc, ◌≡◌, refl, sym, ap, List, [], ◌∷◌, map, length, arith, Bool-cases, true, inl, inr, All,
  Among, All-each, All-Among, All-implies, String, string_eq,
}
use ibex.Base.Dict.{Dict}
use ibex.Base.Results.{Result, ok, ◌>>=◌, >>=-eq-ok}
use ibex.Base.Sets.{range}
use ibex.Base.Sorting.{sort, sort-perm, Among-sort}
use ibex.Sbfl.{Candidate}
use ibex.Reranking.{
  Numbers, RerankError, Assessment, Checked, Scored, validate_scores, suspiciousness_of, score_all,
  le_key, number_from, rank_candidates,
}
use ibex.Reranking.Assessed.{validate_scores-All}
use ibex.Reranking.Distinct.{AreDistinct, validate_scores-AreDistinct}
use ibex.Reranking.Scores.{IsScored, score_all-step, score_all-IsScored}
use ibex.Reranking.Sorted.{AreFloats, IsFinite, AreInOrder, sort-AreInOrder}

module _ (N : Numbers) where
  number_from-ranks :
      (rank : ℕ) (xs : List (Scored N))
      → map (λ r. r.0) (number_from N rank xs) ≡ range rank (length xs)
  unfolding number_from range
  number_from-ranks rank [] = refl
  number_from-ranks rank (x ∷ xs) = ap (◌∷◌ rank) (number_from-ranks (suc rank) xs)

  number_from-items :
      (rank : ℕ) (xs : List (Scored N)) → map (λ r. r.1) (number_from N rank xs) ≡ xs
  unfolding number_from
  number_from-items rank [] = refl
  number_from-items rank (x ∷ xs) = ap (◌∷◌ x) (number_from-items (suc rank) xs)

  abbrev pub candidate_of : Scored N → Candidate
  candidate_of x = x.candidate

  score_all-candidates :
      (weight : N.F) (checked : Dict String (Checked N)) (sus : Dict String N.F)
      (candidates : List Candidate)
      → (scored : List (Scored N)) → score_all N weight checked sus candidates ≡ ok scored
      → map candidate_of scored ≡ candidates
  unfolding score_all
  score_all-candidates weight checked sus [] scored h = ground arith
  score_all-candidates weight checked sus (c ∷ candidates) scored h =
      let (a, v, rest, _, _, all, is) = score_all-step N weight checked sus c candidates scored h in
      rw (sym is) (ap (◌∷◌ c) (score_all-candidates weight checked sus candidates rest all))

  length-number_from :
      (rank : ℕ) (xs : List (Scored N)) → length (number_from N rank xs) ≡ length xs
  unfolding number_from
  length-number_from rank [] = refl
  length-number_from rank (x ∷ xs) = ap suc (length-number_from (suc rank) xs)

  numbered :
      (scored : List (Scored N)) (ranked : List (ℕ × Scored N))
      → ◌≡◌ {A = Result RerankError (List (ℕ × Scored N))}
          (ok (number_from N 1 (sort (le_key N) scored)))
          (ok ranked)
      → ranked ≡ number_from N 1 (sort (le_key N) scored)
  numbered scored ranked h = cc

  IsScored-IsFinite :
      (candidates : List Candidate) (assessments : List (Assessment N)) (weight : N.F)
      → AreFloats N
      → N.in_unit weight ≡ true
      → (x : Scored N) → IsScored N candidates assessments weight x
      → IsFinite N x
  IsScored-IsFinite candidates assessments weight floats inside x
        (
          s,
          (_, _, _, (_, _, s_finite, s_inside)),
          (v, (_, _, _, (_, v_finite, _)), llm, sbfl, final),
        ) =
      (
        rw final (floats.round_finite _ (floats.mix_finite weight s v inside s_inside v_finite)),
        rw llm (floats.round_finite s s_finite),
        rw sbfl (floats.round_finite v v_finite),
      )

  All-sort_of :
      (P : Scored N → Type 0) (xs : List (Scored N)) → All P xs → All P (sort (le_key N) xs)
  All-sort_of P xs h =
      All-each P (sort (le_key N) xs) (λ x i. All-Among P xs x h ((Among-sort (le_key N) x xs).1 i))

  -- With floats as in `AreFloats`, a successful ranking has each given candidate once, numbered
  -- from 1 on, by descending final score; items of equal final scores are by descending score of
  -- the model, then by descending suspiciousness, then by original rank and id. The scores of each
  -- item are rounded: those of an assessment and of a candidate that have its id, and their mean by
  -- the weight. Each assessment is of a given candidate, and no two are of one id.
  pub rank_candidates-AreInOrder :
      AreFloats N
      → (candidates : List Candidate) (assessments : List (Assessment N)) (weight : N.F)
        (ranked : List (ℕ × Scored N))
      → rank_candidates N candidates assessments weight ≡ ok ranked
      → (map (λ r. r.0) ranked ≡ range 1 (length ranked))
        × Perm (map candidate_of (map (λ r. r.1) ranked)) candidates
        × AreInOrder N (map (λ r. r.1) ranked)
        × All (IsScored N candidates assessments weight) (map (λ r. r.1) ranked)
        × All
            (λ a. (c : Candidate) × Among c candidates × (c.candidate_id ≡ a.candidate_id))
            assessments
        × AreDistinct N assessments
  unfolding rank_candidates
  rank_candidates-AreInOrder floats candidates assessments weight ranked h =
      elim (Bool-cases (N.in_unit weight)) [
        | inr outside ↦ absurd (ground (arith, outside))
        | inl inside ↦
            let (checked, valid, h1) =
              >>=-eq-ok (validate_scores N candidates assessments) (behind_checks)
                (rw (rank_candidates, inside) at h) in
            let (sus, parsed, h2) =
              >>=-eq-ok (suspiciousness_of N [] candidates) (behind_sus checked) h1 in
            let (scored, all, h3) =
              >>=-eq-ok (score_all N weight checked sus candidates) finish h2 in
            let is = numbered scored ranked h3 in
            let scores =
              score_all-IsScored N candidates assessments weight checked sus valid parsed candidates
                scored all in
            let finite =
              All-implies _ (IsFinite N)
                (IsScored-IsFinite candidates assessments weight floats inside) scored scores in
            (
              rw (is, length-number_from 1 (sort (le_key N) scored))
                  (number_from-ranks 1 (sort (le_key N) scored)),
              rw (is, number_from-items 1 (sort (le_key N) scored))
                  (subst (Perm (map candidate_of (sort (le_key N) scored)))
                    (score_all-candidates weight checked sus candidates scored all)
                    (Perm.map candidate_of (sort-perm (le_key N) scored))),
              rw (is, number_from-items 1 (sort (le_key N) scored))
                  (sort-AreInOrder N floats scored finite),
              rw (is, number_from-items 1 (sort (le_key N) scored))
                  (All-sort_of (IsScored N candidates assessments weight) scored scores),
              validate_scores-All N candidates assessments checked valid,
              validate_scores-AreDistinct N candidates assessments checked valid,
            )
      ]
    where
      finish : List (Scored N) → Result RerankError (List (ℕ × Scored N))
      finish scored = ok (number_from N 1 (sort (le_key N) scored))

      behind_sus :
          Dict String (Checked N) → Dict String N.F → Result RerankError (List (ℕ × Scored N))
      behind_sus checked sus = score_all N weight checked sus candidates >>= finish

      behind_checks : Dict String (Checked N) → Result RerankError (List (ℕ × Scored N))
      behind_checks checked = suspiciousness_of N [] candidates >>= behind_sus checked
