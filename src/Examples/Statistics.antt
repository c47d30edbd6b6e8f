-- ===== src/Examples/Statistics.antt =====
-- Rows of a summary for ibex_sbfl_batch/statistics.py.
use ibex.Base.{ℕ, ◌+◌, ◌/◌, ◌≡◌, refl, none, some, List, [], ◌∷◌, ltb, leb, nat_eqb, arith}
use Prim.Native.Nat.{min}
use ibex.Base.Decimals.{value}
use ibex.Base.Results.{ok}
use ibex.Base.Text.{Text, codes, text_eq}
use ibex.Batch.Statistics.{Number, Row, parse_rank}
use ibex.Batch.Statistics.Llm.{LlmStats, ok_only, compute_llm_stats}
use ibex.Batch.Statistics.Counts.{IsMonotone, AreComparable}

-- Whole numbers, where an inverse is counted as one.
abbrev whole : Number
whole = record {
  F = ℕ;
  of_text = λ t. some (value 0 t);
  int_of = λ t. some (value 0 t);
  zero_sum = 0;
  of_nat = λ n. n;
  add = λ m n. m + n;
  divide = λ m n. m / n;
  inverse = λ n. some 1;
  at_most = λ m n. leb m n;
  min_11 = λ n. min n 11;
  less = λ m n. ltb m n;
  equal = λ m n. nat_eqb m n;
}

whole-IsMonotone : IsMonotone whole
whole-IsMonotone rank m n h = ground arith

abbrev ranked : Text → Text → Row
ranked llm sbfl =
    (codes "status", codes "OK") ∷ (codes "top-k", llm) ∷ (codes "sbfl_top-k", sbfl) ∷ []

abbrev rows : List Row
rows =
    ranked (codes "top-2") (codes "top-7")
    ∷ ranked (codes "over top-9") (codes "top-3")
    ∷ ((codes "status", codes "LLM_ERROR") ∷ [])
    ∷ []

abbrev stats : LlmStats whole
stats = record {
  total = 3;
  ok_rows = 2;
  statuses = (codes "OK", 2) ∷ (codes "LLM_ERROR", 1) ∷ [];
  models = ([], 2) ∷ [];
  counts = record {
    ranks = record { top1 = 0; top5 = 1; top10 = 1; improved = 1; unchanged = 0; worsened = 1 };
    sums = record {
      reciprocal = 1;
      mar10 = 13;
      llm = (0, 0);
      gen = (0, 0);
      sbfl = (0, 0);
      prompt = (0, 0);
      completion = (0, 0);
      total_tokens = (0, 0);
    };
  };
  mrr = some 0;
  mar10 = some 6;
  average_llm = none;
  average_gen = none;
  average_sbfl = none;
  average_prompt_tokens = none;
  average_completion_tokens = none;
  average_total_tokens = none;
}

stats_run : compute_llm_stats whole rows ≡ ok stats
unfolding compute_llm_stats text_eq value
stats_run = refl

rows-AreComparable : AreComparable whole (ok_only rows)
unfolding ok_only text_eq parse_rank value
rows-AreComparable = (refl, (tt, tt))
