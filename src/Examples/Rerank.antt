-- ===== src/Examples/Rerank.antt =====
-- Two candidates for tools/ibex_sbfl_rerank ranking.py.
use mathlib.Core.List.{Perm}
use ibex.Base.{
  ℕ, All, Among, arith, ◌+◌, ◌-◌, ◌*◌, ◌≡◌, refl, true, false, none, some, List, [], ◌∷◌, map,
  length, String, string_eq, leb, ltb, nat_eqb,
}
use ibex.Base.Results.{ok}
use ibex.Base.Sets.{range}
use ibex.Base.Text.{codes}
use ibex.Sbfl.{Candidate}
use ibex.Reranking.{Numbers, Assessment, Scored, item, rank_candidates}
use ibex.Reranking.Order.{candidate_of, rank_candidates-AreInOrder}
use ibex.Reranking.Distinct.{AreDistinct}
use ibex.Reranking.Scores.{IsScored}
use ibex.Reranking.Sorted.{AreFloats, AreInOrder}

-- Whole numbers, of which 0 and 1 are in the unit interval; a text counts as its length.
abbrev whole : Numbers
whole = record {
  F = ℕ;
  Raw = ℕ;
  is_bool = λ _. false;
  to_float = λ n. some n;
  of_text = λ t. some (length t);
  is_finite = λ _. true;
  in_unit = λ n. leb n 1;
  is_below_zero = λ _. false;
  add = λ m n. m + n;
  mul = λ m n. m * n;
  one_minus = λ n. 1 - n;
  round_12 = λ n. n;
  equal = λ m n. nat_eqb m n;
  less = λ m n. ltb m n;
}

abbrev candidate : ℕ → String → Candidate
candidate rank id = record {
  candidate_id = id;
  original_rank = rank;
  suspiciousness = codes "1";
  module_name = "m";
  scope = codes "TOP.m";
  bid = 0;
  lines = 2 ∷ [];
  block_type = "always";
}

abbrev candidates : List Candidate
candidates = candidate 1 "C1" ∷ candidate 2 "C2" ∷ []

abbrev assess : String → ℕ → Assessment whole
assess id score = record { candidate_id = id; score = score; reason = none }

abbrev scored : ℕ → String → ℕ → Scored whole
scored rank id score = item whole 1 (candidate rank id) (record { score = score; reason = none }) 1

-- The model prefers the second.
abbrev ranked : List (ℕ × Scored whole)
ranked = (1, scored 2 "C2" 1) ∷ (2, scored 1 "C1" 0) ∷ []

ranked_run : rank_candidates whole candidates (assess "C1" 0 ∷ assess "C2" 1 ∷ []) 1 ≡ ok ranked
unfolding rank_candidates string_eq
ranked_run = refl

floats : AreFloats whole
floats = record {
  equal_sym = λ x y. ground arith;
  connected = λ x y _ _ e l. ground (arith, e, l);
  round_finite = λ x _. refl;
  mix_finite = λ w s v _ _ _. refl;
}

abbrev assessments : List (Assessment whole)
assessments = assess "C1" 0 ∷ assess "C2" 1 ∷ []

rank_candidates-AreInOrder_example :
    (map (λ r. r.0) ranked ≡ range 1 2)
    × Perm (map (candidate_of whole) (map (λ r. r.1) ranked)) candidates
    × AreInOrder whole (map (λ r. r.1) ranked)
    × All (IsScored whole candidates assessments 1) (map (λ r. r.1) ranked)
    × All
        (λ a. (c : Candidate) × Among c candidates × (c.candidate_id ≡ a.candidate_id))
        assessments
    × AreDistinct whole assessments
rank_candidates-AreInOrder_example =
    rank_candidates-AreInOrder whole floats candidates assessments 1 ranked ranked_run
