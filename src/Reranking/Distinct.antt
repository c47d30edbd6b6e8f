-- ===== src/Reranking/Distinct.antt =====
-- The ids that `validate_scores` lets pass.
use ibex.Base.{ℕ, suc, ◌≡◌, ◌≢◌, none, List, [], ◌∷◌, String, string_eq, All, arith}
use ibex.Base.Dict.{Dict, lookup, insert, lookup-insert}
use ibex.Base.Results.{ok}
use ibex.Sbfl.{Candidate}
use ibex.Reranking.{Numbers, Assessment, Checked, collect_scores, validate_scores}
use ibex.Reranking.Assessed.{collect_scores-step, keys-lookup, validate_scores-ok}
use ibex.Base.{none, suc}

module _ (N : Numbers) where
  collect_scores-new :
      (index : ℕ) (result final : Dict String (Checked N)) (assessments : List (Assessment N))
      → collect_scores N index result assessments ≡ ok final
      → (id : String) → lookup id result ≢ none
      → All (λ a. a.candidate_id ≢ id) assessments
  collect_scores-new index result final [] h id found = tt
  collect_scores-new index result final (a ∷ assessments) h id found =
      let (s, has, new, rest) = collect_scores-step N index result final a assessments h in
      let own : Checked N = record { score = s; reason = a.reason } in
      (
        λ p. absurd (ground (arith, keys-lookup N id result found, new, p)),
        collect_scores-new (suc index) (insert a.candidate_id own result) final assessments rest id
            (λ p. ground (arith, lookup-insert id a.candidate_id own result, p, found)),
      )

  -- No two assessments have one id.
  abbrev pub AreDistinct : List (Assessment N) → Type 0
  AreDistinct [] = Unit
  AreDistinct (a ∷ assessments) =
      All (λ b. b.candidate_id ≢ a.candidate_id) assessments × AreDistinct assessments

  collect_scores-AreDistinct :
      (index : ℕ) (result final : Dict String (Checked N)) (assessments : List (Assessment N))
      → collect_scores N index result assessments ≡ ok final
      → AreDistinct assessments
  collect_scores-AreDistinct index result final [] h = tt
  collect_scores-AreDistinct index result final (a ∷ assessments) h =
      let (s, has, new, rest) = collect_scores-step N index result final a assessments h in
      let own : Checked N = record { score = s; reason = a.reason } in
      let behind = insert a.candidate_id own result in
      (
        collect_scores-new (suc index) behind final assessments rest a.candidate_id
            (λ p. ground (arith, lookup-insert a.candidate_id a.candidate_id own result, p)),
        collect_scores-AreDistinct (suc index) behind final assessments rest,
      )

  pub validate_scores-AreDistinct :
      (candidates : List Candidate) (assessments : List (Assessment N))
      (result : Dict String (Checked N))
      → validate_scores N candidates assessments ≡ ok result
      → AreDistinct assessments
  validate_scores-AreDistinct candidates assessments result h =
      collect_scores-AreDistinct 1 [] result assessments
        (validate_scores-ok N candidates assessments result h).0
