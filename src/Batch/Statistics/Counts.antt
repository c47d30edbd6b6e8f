-- ===== src/Batch/Statistics/Counts.antt =====
-- What the counts of ibex_sbfl_batch/statistics.py have to do with each other.
use ibex.Base.{
  ℕ, suc, ◌+◌, ◌≤◌, ◌≡◌, Bool, true, false, Option, none, some, List, [], ◌∷◌, length, All, arith,
}
use ibex.Base.Results.{ok, >>=-eq-ok}
use ibex.Base.Text.{codes}
use ibex.Batch.Statistics.{Number, Row, field_of, flag, parse_rank}
use ibex.Batch.Statistics.Llm.{
  RankCounts, LlmCounts, LlmStats, ok_only, compare_ranks, limit_rank, count_ranks, add_sums,
  count_llm_row, count_llm_rows, nothing, llm_stats, compute_llm_stats,
}

module _ (N : Number) where
  -- The ranks of a row: of the model, and of the suspiciousness.
  abbrev pub rank_of : Row → Option N.F
  rank_of row = parse_rank N (field_of (codes "top-k") row)

  abbrev pub sbfl_rank_of : Row → Option N.F
  sbfl_rank_of row = parse_rank N (field_of (codes "sbfl_top-k") row)

  -- A rank under a limit is under a larger one.
  abbrev pub IsMonotone : Type 0
  IsMonotone = (rank : N.F) (m n : ℕ) → m ≤ n → flag (N.at_most rank m) ≤ flag (N.at_most rank n)

  -- Two ranks that are compared are ordered one way, as they are unless one is no number.
  abbrev pub IsComparable : Option N.F → Option N.F → Type 0
  IsComparable (some a) (some b) = flag (N.less a b) + flag (N.equal a b) + flag (N.less b a) ≡ 1
  IsComparable _ _ = Unit

  -- 1 for a row without a rank of either kind.
  abbrev pub unranked : Option N.F → Option N.F → ℕ
  unranked none none = 1
  unranked _ _ = 0

  unfoldable pub unranked_rows : List Row → ℕ
  unranked_rows [] = 0
  unranked_rows (row ∷ rows) = unranked (rank_of row) (sbfl_rank_of row) + unranked_rows rows

  abbrev pub compared : RankCounts → ℕ
  compared c = c.improved + c.unchanged + c.worsened

  compare_ranks-compared :
      (a b : Option N.F) (c : RankCounts)
      → IsComparable a b
      → compared (compare_ranks N a b (limit_rank N a c)) + unranked a b ≡ suc (compared c)
  unfolding compare_ranks
  compare_ranks-compared none none c h = omega arith
  compare_ranks-compared none (some b) c h = omega arith
  compare_ranks-compared (some a) none c h = omega arith
  compare_ranks-compared (some a) (some b) c h = omega arith

  abbrev pub IsOrdered : RankCounts → ℕ → Type 0
  IsOrdered c rows = (c.top1 ≤ c.top5) × (c.top5 ≤ c.top10) × (c.top10 ≤ rows)

  flag-le : (b : Bool) → flag b ≤ 1
  flag-le true = omega arith
  flag-le false = omega arith

  limit-IsOrdered :
      (a : N.F) (c : RankCounts) (rows : ℕ)
      → IsMonotone
      → IsOrdered c rows
      → (c.top1 + flag (N.at_most a 1) ≤ c.top5 + flag (N.at_most a 5))
        × (c.top5 + flag (N.at_most a 5) ≤ c.top10 + flag (N.at_most a 10))
        × (c.top10 + flag (N.at_most a 10) ≤ suc rows)
  limit-IsOrdered a c rows up (h1, h2, h3) =
      let five = up a 1 5 (omega arith) in
      let ten = up a 5 10 (omega arith) in
      let one = flag-le (N.at_most a 10) in (omega arith, omega arith, omega arith)

  compare_ranks-IsOrdered :
      (a b : Option N.F) (c : RankCounts) (rows : ℕ)
      → IsMonotone
      → IsOrdered c rows
      → IsOrdered (compare_ranks N a b (limit_rank N a c)) (suc rows)
  unfolding compare_ranks
  compare_ranks-IsOrdered none none c rows up (h1, h2, h3) = (omega arith, omega arith, omega arith)
  compare_ranks-IsOrdered none (some b) c rows up (h1, h2, h3) =
      (omega arith, omega arith, omega arith)
  compare_ranks-IsOrdered (some a) none c rows up (h1, h2, h3) =
      limit-IsOrdered a c rows up (h1, h2, h3)
  compare_ranks-IsOrdered (some a) (some b) c rows up (h1, h2, h3) =
      limit-IsOrdered a c rows up (h1, h2, h3)

  abbrev pub AreComparable : List Row → Type 0
  AreComparable rows = All (λ row. IsComparable (rank_of row) (sbfl_rank_of row)) rows

  count_llm_rows-IsOrdered :
      (rows : List Row) (c c' : LlmCounts N) (before : ℕ)
      → IsMonotone
      → AreComparable rows
      → IsOrdered c.ranks before
      → count_llm_rows N rows c ≡ ok c'
      → IsOrdered c'.ranks (before + length rows)
        × (compared c'.ranks + unranked_rows rows ≡ compared c.ranks + length rows)
  unfolding count_llm_rows count_llm_row count_ranks unranked_rows
  count_llm_rows-IsOrdered [] c c' before up _ (h1, h2, h3) e =
      let same : c ≡ c' = cc in rw (← same) ((h1, h2, omega arith), omega arith)
  count_llm_rows-IsOrdered (row ∷ rows) c c' before up (fair, others) ordered e =
      let (c1, e1, e2) = >>=-eq-ok (count_llm_row N row c) (count_llm_rows N rows) e in
      let (sums, _, e3) =
        >>=-eq-ok (add_sums N row c.sums)
          (λ sums. ok (record { ranks = count_ranks N row c.ranks; sums = sums })) e1 in
      let same : count_ranks N row c.ranks ≡ c1.ranks = cc in
      let first : IsOrdered c1.ranks (suc before) =
        rw (← same)
          (compare_ranks-IsOrdered (rank_of row) (sbfl_rank_of row) c.ranks before up ordered) in
      let one_more : compared c1.ranks + unranked (rank_of row) (sbfl_rank_of row)
          ≡ suc (compared c.ranks) =
        rw (← same) (compare_ranks-compared (rank_of row) (sbfl_rank_of row) c.ranks fair) in
      let ((h1, h2, h3), rest) =
        count_llm_rows-IsOrdered rows c1 c' (suc before) up others first e2 in
      ((h1, h2, omega arith), omega arith)

  -- Where the ranks of each row can be compared, the counts of `compute_llm_stats` are in order, up
  -- to the number of rows with the status OK, and each of these rows is improved, unchanged or
  -- worsened, or has a rank of neither kind.
  pub compute_llm_stats_lem :
      (rows : List Row) (stats : LlmStats N)
      → IsMonotone
      → AreComparable (ok_only rows)
      → compute_llm_stats N rows ≡ ok stats
      → IsOrdered stats.counts.ranks stats.ok_rows
        × (compared stats.counts.ranks + unranked_rows (ok_only rows) ≡ stats.ok_rows)
  unfolding compute_llm_stats llm_stats
  compute_llm_stats_lem rows stats up fair e =
      let (c, e1, e2) =
        >>=-eq-ok (count_llm_rows N (ok_only rows) (nothing N))
          (λ c. ok (llm_stats N rows (ok_only rows) c)) e in
      let same : llm_stats N rows (ok_only rows) c ≡ stats = cc in
      let ((h1, h2, h3), each) =
        count_llm_rows-IsOrdered (ok_only rows) (nothing N) c 0 up fair
          (omega arith, omega arith, omega arith) e1 in
      rw (← same) ((h1, h2, omega arith), omega arith)
