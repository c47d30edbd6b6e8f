-- ===== src/Batch/Statistics/Llm.antt =====
-- `compute_llm_stats` of ibex_sbfl_batch/statistics.py.
use ibex.Base.{
  ℕ, zero, suc, ◌+◌, Option, none, some, List, [], ◌∷◌, length, is_empty, if◌then◌else◌,
}
use ibex.Base.Dict.{Dict, lookup, insert}
use ibex.Base.Results.{Result, ok, ◌>>=◌}
use ibex.Base.Text.{Text, codes, text_eq}
use ibex.Batch.Statistics.{
  Number, StatsError, value_error, zero_division, Row, or_raise, field_of, flag, is_ok, parse_rank,
  within, capped, add_time,
}

-- `Counter(...)`
unfoldable pub counter : (Row → Text) → List Row → Dict Text ℕ → Dict Text ℕ
unfolding lookup insert text_eq
counter key [] counts = counts
counter key (row ∷ rows) counts =
    counter key rows (insert (key row) (next (lookup (key row) counts)) counts)
  where
    next : Option ℕ → ℕ
    next none = 1
    next (some n) = suc n

-- `[row for row in row_list if row.get("status") == "OK"]`
unfoldable pub ok_only : List Row → List Row
unfolding field_of text_eq
ok_only [] = []
ok_only (row ∷ rows) = if is_ok row then row ∷ ok_only rows else ok_only rows

-- The counts of ranks: under the limits, and against those of the suspiciousness.
pub record RankCounts : Type 0 where
  pub top1 : ℕ
  pub top5 : ℕ
  pub top10 : ℕ
  pub improved : ℕ
  pub unchanged : ℕ
  pub worsened : ℕ

module _ (N : Number) where
  unfoldable pub compare_ranks : Option N.F → Option N.F → RankCounts → RankCounts
  compare_ranks none none c = c
  compare_ranks none (some sbfl) c = record c { worsened = suc c.worsened }
  compare_ranks (some rank) none c = record c { improved = suc c.improved }
  compare_ranks (some rank) (some sbfl) c = record c {
    improved = c.improved + flag (N.less rank sbfl);
    unchanged = c.unchanged + flag (N.equal rank sbfl);
    worsened = c.worsened + flag (N.less sbfl rank);
  }

  abbrev pub limit_rank : Option N.F → RankCounts → RankCounts
  limit_rank rank c = record c {
    top1 = c.top1 + within N rank 1;
    top5 = c.top5 + within N rank 5;
    top10 = c.top10 + within N rank 10;
  }

  unfoldable pub count_ranks : Row → RankCounts → RankCounts
  unfolding parse_rank field_of compare_ranks
  count_ranks row c =
      let rank = parse_rank N (field_of (codes "top-k") row) in
      compare_ranks rank (parse_rank N (field_of (codes "sbfl_top-k") row)) (limit_rank rank c)

  -- The sums, with the numbers of their terms.
  pub record Sums : Type 0 where
    pub reciprocal : N.F
    pub mar10 : N.F
    pub llm : N.F × ℕ
    pub gen : N.F × ℕ
    pub sbfl : N.F × ℕ
    pub prompt : ℕ × ℕ
    pub completion : ℕ × ℕ
    pub total_tokens : ℕ × ℕ

  pub record LlmCounts : Type 0 where
    pub ranks : RankCounts
    pub sums : Sums

  abbrev pub nothing : LlmCounts
  nothing = record {
    ranks = record { top1 = 0; top5 = 0; top10 = 0; improved = 0; unchanged = 0; worsened = 0 };
    sums = record {
      reciprocal = N.zero_sum;
      mar10 = N.zero_sum;
      llm = (N.zero_sum, 0);
      gen = (N.zero_sum, 0);
      sbfl = (N.zero_sum, 0);
      prompt = (0, 0);
      completion = (0, 0);
      total_tokens = (0, 0);
    };
  }

  -- `reciprocal += 1.0 / rank` where there is a rank.
  unfoldable pub add_inverse : Option N.F → N.F → Result StatsError N.F
  add_inverse none reciprocal = ok reciprocal
  add_inverse (some rank) reciprocal =
      or_raise zero_division (N.inverse rank) >>= λ inverse. ok (N.add reciprocal inverse)

  unfoldable pub add_tokens : Text → ℕ × ℕ → Result StatsError (ℕ × ℕ)
  add_tokens text (sum, number) =
      if is_empty text
      then ok (sum, number)
      else or_raise value_error (N.int_of text) >>= λ tokens. ok (sum + tokens, suc number)

  unfoldable pub add_sums : Row → Sums → Result StatsError Sums
  unfolding parse_rank field_of add_time add_inverse add_tokens
  add_sums row c =
      let rank = parse_rank N (field_of (codes "top-k") row) in
      add_inverse rank c.reciprocal >>= λ reciprocal.
      add_time N (field_of (codes "llm_elapsed_time") row) c.llm >>= λ llm.
      add_time N (field_of (codes "gen_time") row) c.gen >>= λ gen.
      add_time N (field_of (codes "sbfl_time") row) c.sbfl >>= λ sbfl.
      add_tokens (field_of (codes "prompt_tokens") row) c.prompt >>= λ prompt.
      add_tokens (field_of (codes "completion_tokens") row) c.completion >>= λ completion.
      add_tokens (field_of (codes "total_tokens") row) c.total_tokens >>= λ total. ok (record {
        reciprocal = reciprocal;
        mar10 = N.add c.mar10 (capped N rank);
        llm = llm;
        gen = gen;
        sbfl = sbfl;
        prompt = prompt;
        completion = completion;
        total_tokens = total;
      })

  -- The body of the loop; nothing but the sums raises.
  unfoldable pub count_llm_row : Row → LlmCounts → Result StatsError LlmCounts
  unfolding count_ranks add_sums
  count_llm_row row c =
      add_sums row c.sums >>= λ sums. ok (record { ranks = count_ranks row c.ranks; sums = sums })

  unfoldable pub count_llm_rows : List Row → LlmCounts → Result StatsError LlmCounts
  unfolding count_llm_row
  count_llm_rows [] c = ok c
  count_llm_rows (row ∷ rows) c = count_llm_row row c >>= count_llm_rows rows

  -- A mean, None of nothing.
  abbrev mean : N.F × ℕ → Option N.F
  mean (sum, zero) = none
  mean (sum, suc n) = some (N.divide sum (suc n))

  abbrev token_mean : ℕ × ℕ → Option N.F
  token_mean (sum, number) = mean (N.of_nat sum, number)

  pub record LlmStats : Type 0 where
    pub total : ℕ
    pub ok_rows : ℕ
    pub statuses : Dict Text ℕ
    pub models : Dict Text ℕ
    pub counts : LlmCounts
    pub mrr : Option N.F
    pub mar10 : Option N.F
    pub average_llm : Option N.F
    pub average_gen : Option N.F
    pub average_sbfl : Option N.F
    pub average_prompt_tokens : Option N.F
    pub average_completion_tokens : Option N.F
    pub average_total_tokens : Option N.F

  -- The dict that is returned.
  unfoldable pub llm_stats : List Row → List Row → LlmCounts → LlmStats
  unfolding counter field_of
  llm_stats row_list ok_rows c = record {
    total = length row_list;
    ok_rows = length ok_rows;
    statuses = counter (field_of (codes "status")) row_list [];
    models = counter (field_of (codes "model")) ok_rows [];
    counts = c;
    mrr = mean (c.sums.reciprocal, length ok_rows);
    mar10 = mean (c.sums.mar10, length ok_rows);
    average_llm = mean c.sums.llm;
    average_gen = mean c.sums.gen;
    average_sbfl = mean c.sums.sbfl;
    average_prompt_tokens = token_mean c.sums.prompt;
    average_completion_tokens = token_mean c.sums.completion;
    average_total_tokens = token_mean c.sums.total_tokens;
  }

  unfoldable pub compute_llm_stats : List Row → Result StatsError LlmStats
  unfolding ok_only count_llm_rows llm_stats
  compute_llm_stats row_list =
      let ok_rows = ok_only row_list in
      count_llm_rows ok_rows nothing >>= λ c. ok (llm_stats row_list ok_rows c)
