-- ===== src/Ranks/Reranked.antt =====
-- `find_reranked_bug_rank` of tools/ibex_sbfl_common artifacts.py: where an inserted bug stands in a ranking by an LLM.
pub mod Average
use ibex.Base.{
  ℕ, ◌+◌, Bool, true, false, ◌&&◌, Option, none, some, List, [], ◌∷◌, ap, leb, length,
  if◌then◌else◌, ◌==◌, string_eq, nat_eq, String, Eq,
}
use ibex.Base.Dict.{Dict, lookup, insert}
use ibex.Base.Grouping.{group_from}
use ibex.Base.Sorting.{sort}
use ibex.Base.Text.{Text, strip, text_eq}
use ibex.Sbfl.{BugInfo}
use ibex.Ranks.Report.{Decimals, Report, over, top}
use ibex.Ranks.Find.{line_set_with_window, intersects}

-- An entry of "rankings", with `str` of its score. A missing module, scope or list of lines is
-- empty.
pub record Reranked : Type 0 where
  pub reranked_rank : ℕ
  pub final_score : Option Text
  pub module_name : String
  pub scope : Text
  pub lines : List ℕ

pub data ScoreKey (D : Decimals) : Type 0 where
  by_rank : ℕ → ScoreKey D
  by_num : D.Decimal → ScoreKey D
  by_str : Text → ScoreKey D

abbrev pub le_reranked : Reranked → Reranked → Bool
le_reranked a b = leb a.reranked_rank b.reranked_rank

abbrev score_text : Option Text → Text
score_text none = []
score_text (some raw_score) = strip raw_score

abbrev key_of_text : (D : Decimals) → ℕ → Text → ScoreKey D
key_of_text D rank [] = by_rank rank
key_of_text D rank (c ∷ s) = elim (D.of_text (c ∷ s)) [ some d ↦ by_num d | none ↦ by_str (c ∷ s) ]

-- The value of `score_key` in the loop.
unfoldable pub score_key : (D : Decimals) → Reranked → ScoreKey D
unfolding strip
score_key D item = key_of_text D item.reranked_rank (score_text item.final_score)

unfoldable pub ScoreKey-discrete : (D : Decimals) → Discrete (ScoreKey D)
unfolding nat_eq text_eq
ScoreKey-discrete D (by_rank m) (by_rank n) = elim (nat_eq.dec m n) [
  | yes p ↦ yes (ap by_rank p)
  | no differ ↦ no (λ e. differ (cc))
]
ScoreKey-discrete D (by_num a) (by_num b) = elim (D.discrete a b) [
  | yes p ↦ yes (ap by_num p)
  | no differ ↦ no (λ e. differ (cc))
]
ScoreKey-discrete D (by_str s) (by_str t) = elim (text_eq.dec s t) [
  | yes p ↦ yes (ap by_str p)
  | no differ ↦ no (λ e. differ (cc))
]
ScoreKey-discrete D (by_rank m) (by_num b) = no (λ e. cc)
ScoreKey-discrete D (by_rank m) (by_str t) = no (λ e. cc)
ScoreKey-discrete D (by_num a) (by_rank n) = no (λ e. cc)
ScoreKey-discrete D (by_num a) (by_str t) = no (λ e. cc)
ScoreKey-discrete D (by_str s) (by_rank n) = no (λ e. cc)
ScoreKey-discrete D (by_str s) (by_num b) = no (λ e. cc)

-- `Fraction(total, count)`
abbrev pub Average : Type 0
Average = ℕ × ℕ

unfoldable pub sum_reranked : List Reranked → ℕ
sum_reranked [] = 0
sum_reranked (x ∷ xs) = x.reranked_rank + sum_reranked xs

abbrev pub average : List Reranked → Average
average group = (sum_reranked group, length group)

-- The entries that one group adds to `average_ranks`.
unfoldable pub assign : Average → List Reranked → Dict ℕ Average → Dict ℕ Average
unfolding insert nat_eq
assign mean [] d = d
assign mean (item ∷ items) d = assign mean items (insert item.reranked_rank mean d)

unfoldable pub average_from {κ} :
    {K : Type κ} → Dict K (List Reranked) → Dict ℕ Average → Dict ℕ Average
unfolding assign sum_reranked
average_from [] d = d
average_from ((_, group) ∷ groups) d = average_from groups (assign (average group) group d)

unfoldable pub average_ranks : Decimals → List Reranked → Dict ℕ Average
unfolding average_from group_from score_key ScoreKey-discrete
average_ranks D ordered =
    let instance keys : Eq (ScoreKey D) = record { dec = ScoreKey-discrete D } in
    average_from (group_from (score_key D) [] ordered) []

-- The tests of the last loop.
unfoldable pub is_bug_item : BugInfo → List ℕ → Reranked → Bool
unfolding intersects string_eq text_eq
is_bug_item bug_info target_lines item =
    item.module_name == bug_info.module_name
    && item.scope == bug_info.scope_name
    && intersects item.lines target_lines

-- The last loop; none for a `KeyError` of `average_ranks[rank]`.
unfoldable pub report_first :
    (Reranked → Bool) → ℕ → Dict ℕ Average → List Reranked → Option (Report × Option Reranked)
unfolding lookup nat_eq
report_first is_bug n averages [] = some (over n, none)
report_first is_bug n averages (item ∷ items) =
    if is_bug item
    then elim (lookup item.reranked_rank averages) [
      | some (total, count) ↦ some (top total count, some item)
      | none ↦ none
    ]
    else report_first is_bug n averages items

unfoldable pub find_reranked_bug_rank :
    Decimals → BugInfo → List Reranked → ℕ → Option (Report × Option Reranked)
unfolding sort average_ranks is_bug_item line_set_with_window report_first
find_reranked_bug_rank D bug_info rankings line_window =
    let ordered = sort le_reranked rankings in
    report_first (is_bug_item bug_info (line_set_with_window bug_info.modify_line line_window))
      (length rankings) (average_ranks D ordered) ordered
