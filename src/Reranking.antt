-- ===== src/Reranking.antt =====
-- tools/ibex_sbfl_rerank/src/ibex_sbfl_rerank/ranking.py: model scores and suspiciousness are
-- validated, combined, and ranked.
pub mod Order
pub mod Sorted
pub mod Assessed
pub mod Distinct
pub mod Scores
use Prim.Native.String.{compare}
use text.Mathlib.Text.{is_le}
use ibex.Base.{
  ℕ, suc, Bool, true, false, ◌||◌, not, Option, none, some, List, [], ◌∷◌, map, String, ◌==◌,
  contains, is_empty, string_eq, nat_eqb, ltb, if◌then◌else◌,
}
use ibex.Base.Dict.{Dict, keys, lookup, insert}
use ibex.Base.Results.{Result, ok, err, ◌>>=◌, ◌>>◌, raise_if}
use ibex.Base.Sorting.{sort}
use ibex.Base.Text.{Text, strip}
use ibex.Sbfl.{Candidate}

-- What ranking.py uses of Python's float, and of the values of a parsed JSON assessment.
pub record Numbers : Type 1 where
  pub F : Type 0
  pub Raw : Type 0
  pub is_bool : Raw → Bool
  -- `float(value)` of a value and of a text, where it does not raise.
  pub to_float : Raw → Option F
  pub of_text : Text → Option F
  pub is_finite : F → Bool
  pub in_unit : F → Bool
  pub is_below_zero : F → Bool
  pub add : F → F → F
  pub mul : F → F → F
  -- `1.0 - x` and `round(x, 12)`
  pub one_minus : F → F
  pub round_12 : F → F
  pub equal : F → F → Bool
  pub less : F → F → Bool

pub data RerankError : Type 0 where
  not_a_number : String → RerankError
  not_finite : String → RerankError
  negative : String → RerankError
  empty_id : ℕ → RerankError
  duplicate : String → RerankError
  score_outside : String → RerankError
  mismatch : List String → List String → RerankError
  weight_outside : RerankError
  lacks_score : String → RerankError

module _ (N : Numbers) where
  -- An assessment: the text of its `candidate_id` (empty where it has none), score and reason.
  pub record Assessment : Type 0 where
    pub candidate_id : String
    pub score : N.Raw
    pub reason : Option Text

  pub record Checked : Type 0 where
    pub score : N.F
    pub reason : Option Text

  pub record Scored : Type 0 where
    pub candidate : Candidate
    pub llm_score : N.F
    pub sbfl_score : N.F
    pub final_score : N.F
    pub reason : Option Text

  unfoldable pub check_finite : String → Option N.F → Result RerankError N.F
  check_finite label none = err (not_a_number label)
  check_finite label (some number) =
      if N.is_finite number then ok number else err (not_finite label)

  unfoldable pub finite_number : N.Raw → String → Result RerankError N.F
  unfolding check_finite
  finite_number value label =
      if N.is_bool value then err (not_a_number label) else check_finite label (N.to_float value)

  unfoldable pub parse_suspiciousness : Candidate → Result RerankError N.F
  unfolding check_finite
  parse_suspiciousness candidate =
      check_finite candidate.candidate_id (N.of_text candidate.suspiciousness) >>= λ value.
      if N.is_below_zero value then err (negative candidate.candidate_id) else ok value

  -- The loop of `validate_scores`, from the assessment `index` on.
  unfoldable pub collect_scores :
      ℕ → Dict String Checked → List Assessment → Result RerankError (Dict String Checked)
  unfolding finite_number keys insert string_eq
  collect_scores index result [] = ok result
  collect_scores index result (assessment ∷ assessments) =
      let candidate_id = assessment.candidate_id in
      raise_if (candidate_id == "") (empty_id index)
      >> raise_if (contains (keys result) candidate_id) (duplicate candidate_id)
      >> finite_number assessment.score candidate_id
      >>= λ score. raise_if (not (N.in_unit score)) (score_outside candidate_id) >>= λ _.
          collect_scores (suc index)
            (insert candidate_id (record { score = score; reason = assessment.reason }) result)
            assessments

  -- `sorted(s - t)`
  abbrev minus : List String → List String → List String
  minus [] t = []
  minus (x ∷ s) t = let rest = minus s t in if contains t x then rest else x ∷ rest

  abbrev le_id : String → String → Bool
  le_id a b = is_le (compare a b)

  unfoldable pub validate_scores :
      List Candidate → List Assessment → Result RerankError (Dict String Checked)
  unfolding collect_scores keys sort string_eq
  validate_scores candidates assessments = collect_scores 1 [] assessments >>= λ result.
      let ids = map (λ c. c.candidate_id) candidates in
      let unknown = sort le_id (minus (keys result) ids) in
      let missing = sort le_id (minus ids (keys result)) in
      (raise_if (not (is_empty unknown) || not (is_empty missing)) (mismatch unknown missing)
        >> ok result)

  abbrev stripped : Option Text → Option Text
  stripped none = none
  stripped (some reason) = some (strip reason)

  abbrev pub item : N.F → Candidate → Checked → N.F → Scored
  item llm_weight candidate assessment sbfl_score = record {
    candidate = candidate;
    llm_score = N.round_12 assessment.score;
    sbfl_score = N.round_12 sbfl_score;
    final_score =
        N.round_12
          (N.add (N.mul llm_weight assessment.score) (N.mul (N.one_minus llm_weight) sbfl_score));
    reason = stripped assessment.reason;
  }

  -- The comprehension over the candidates: a later candidate of the same id overwrites.
  unfoldable pub suspiciousness_of :
      Dict String N.F → List Candidate → Result RerankError (Dict String N.F)
  unfolding parse_suspiciousness insert string_eq
  suspiciousness_of found [] = ok found
  suspiciousness_of found (candidate ∷ candidates) = parse_suspiciousness candidate >>= λ value.
      suspiciousness_of (insert candidate.candidate_id value found) candidates

  -- `d[key]`
  unfoldable pub entry : {A : Type 0} → String → Dict String A → Result RerankError A
  unfolding lookup string_eq
  entry key d = elim (lookup key d) [ none ↦ err (lacks_score key) | some value ↦ ok value ]

  -- The scored candidates, in their given order.
  unfoldable pub score_all :
      N.F
      → Dict String Checked
      → Dict String N.F
      → List Candidate
      → Result RerankError (List Scored)
  unfolding entry strip
  score_all llm_weight assessment_map suspiciousness [] = ok []
  score_all llm_weight assessment_map suspiciousness (candidate ∷ candidates) =
      entry candidate.candidate_id assessment_map >>= λ assessment.
      entry candidate.candidate_id suspiciousness >>= λ sbfl_score.
      score_all llm_weight assessment_map suspiciousness candidates >>= λ scored.
      ok (item llm_weight candidate assessment sbfl_score ∷ scored)

  -- The tuple of the sort: scores descending, then the original rank and the id.
  unfoldable pub le_key : Scored → Scored → Bool
  le_key a b =
      if not (N.equal a.final_score b.final_score)
      then N.less b.final_score a.final_score
      else if not (N.equal a.llm_score b.llm_score)
      then N.less b.llm_score a.llm_score
      else if not (N.equal a.sbfl_score b.sbfl_score)
      then N.less b.sbfl_score a.sbfl_score
      else if not (nat_eqb a.candidate.original_rank b.candidate.original_rank)
      then ltb a.candidate.original_rank b.candidate.original_rank
      else le_id a.candidate.candidate_id b.candidate.candidate_id

  unfoldable pub number_from : ℕ → List Scored → List (ℕ × Scored)
  number_from rank [] = []
  number_from rank (x ∷ xs) = (rank, x) ∷ number_from (suc rank) xs

  unfoldable pub rank_candidates :
      List Candidate → List Assessment → N.F → Result RerankError (List (ℕ × Scored))
  unfolding validate_scores suspiciousness_of score_all le_key number_from sort
  rank_candidates candidates assessments llm_weight =
      if not (N.in_unit llm_weight)
      then err weight_outside
      else (validate_scores candidates assessments >>= λ assessment_map.
          suspiciousness_of [] candidates >>= λ suspiciousness.
          score_all llm_weight assessment_map suspiciousness candidates >>= λ scored.
          ok (number_from 1 (sort le_key scored)))
