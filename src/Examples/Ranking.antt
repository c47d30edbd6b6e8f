-- ===== src/Examples/Ranking.antt =====
-- A ranking of three blocks for tools/ibex_sbfl_common artifacts.py.
use mathlib.Core.List.{Perm}
use ibex.Base.{
  ℕ, ◌≤◌, All, ◌≡◌, ◌≢◌, refl, ap, inl, inr, Option, some, none, List, [], ◌∷◌, length, arith,
  String, nat_eq, string_eq, Among,
}
use ibex.Base.Sorting.{sort, IsSorted}
use ibex.Base.Grouping.{matching}
use ibex.Base.Text.{Text, codes, text_eq, strip}
use ibex.Sbfl.{RankedBlock, BugInfo}
use ibex.Ranks.Report.{Decimals, suspiciousness_key, top}
use ibex.Ranks.Ties.{
  Group, le_rank, tie_groups, AreGroups, flat, SusKey-discrete, key_of, tie_groups-AreGroups,
}
use ibex.Ranks.Find.{line_set_with_window, BlockMap, is_bug_of, find_bug_rank}
use ibex.Ranks.Reranked.{
  Reranked, is_bug_item, le_reranked, score_key, ScoreKey-discrete, sum_reranked, average,
  find_reranked_bug_rank,
}
use ibex.Ranks.Reranked.Average.{first_item, tied_with, find_reranked_bug_rank-some}
use ibex.Ranks.Find.Reported.{IsReport}
use ibex.Ranks.Find.Located.{first_bug, find_bug_rank-some}

-- Texts as their own decimals.
abbrev texts : Decimals
texts = record { Decimal = Text; of_text = λ t. some t; discrete = text_eq.dec }

abbrev block : ℕ → String → RankedBlock
block n sus = record { rank = n; scope = codes "TOP.alu"; bid = n; sus = codes sus }

abbrev ranking : List RankedBlock
ranking = block 2 "0.5" ∷ block 1 "0.9" ∷ block 3 "0.5" ∷ []

abbrev blocks : BlockMap
blocks scope bid = some (record {
  scope = scope;
  bid = bid;
  module_name = "ibex_alu";
  lines = bid ∷ [];
  type_name = "always";
})

abbrev bug : ℕ → BugInfo
bug line = record {
  module_name = "ibex_alu";
  scope_name = codes "TOP.alu";
  modify_line = line ∷ [];
}

tie_groups-AreGroups_example :
    AreGroups texts (tie_groups texts ranking)
    × IsSorted le_rank (flat texts (tie_groups texts ranking))
    × Perm (flat texts (tie_groups texts ranking)) ranking
tie_groups-AreGroups_example = tie_groups-AreGroups texts ranking

unlisted : first_bug (is_bug_of (bug 9) blocks 0) (sort le_rank ranking) ≡ none
unfolding first_bug is_bug_of sort string_eq text_eq nat_eq
unlisted = refl

listed : first_bug (is_bug_of (bug 1) blocks 0) (sort le_rank ranking) ≡ some (block 1 "0.9")
unfolding first_bug is_bug_of sort string_eq text_eq nat_eq
listed = refl

two_groups : length (tie_groups texts ranking) ≡ 2
unfolding tie_groups SusKey-discrete text_eq suspiciousness_key
two_groups = refl

two_ties : length (tie_groups texts ranking) ≢ 1
two_ties p = absurd (omega (arith, p, two_groups))

find_bug_rank-some_example :
    (last : RankedBlock) × Among last ranking
    × All (λ other. other.rank ≤ last.rank) ranking
    × ((g : Group) × Among g (tie_groups texts ranking)
        × Among (block 1 "0.9") g.items
        × All (λ other. key_of texts other ≡ key_of texts (block 1 "0.9")) g.items
        × IsReport texts 3
            (key_of texts last)
            g
            (block 1 "0.9")
            (find_bug_rank texts (bug 1) ranking blocks 0))
find_bug_rank-some_example =
    find_bug_rank-some texts (bug 1) (block 2 "0.5") (block 1 "0.9" ∷ block 3 "0.5" ∷ []) blocks 0
      (block 1 "0.9") listed two_ties

abbrev reranked : ℕ → Option Text → Reranked
reranked n score = record {
  reranked_rank = n;
  final_score = score;
  module_name = "ibex_alu";
  scope = codes "TOP.alu";
  lines = n ∷ [];
}

-- Two items of one score, and one of a result without scores.
abbrev rankings : List Reranked
rankings = reranked 2 (some (codes "0.5")) ∷ reranked 3 none ∷ reranked 1 (some (codes " 0.5")) ∷ []

second_is_bug :
    first_item (is_bug_item (bug 2) (line_set_with_window (2 ∷ []) 0)) (sort le_reranked rankings)
    ≡ some (reranked 2 (some (codes "0.5")))
unfolding first_item is_bug_item line_set_with_window sort string_eq text_eq nat_eq
second_is_bug = refl

ranks_apart :
    (other : Reranked)
    → Among other rankings
    → other.reranked_rank ≡ 2
    → score_key texts (reranked 2 (some (codes "0.5"))) ≡ score_key texts other
ranks_apart other (inl p) e = rw p refl
ranks_apart other (inr (inl p)) e = absurd (omega (arith, e, ap (λ x. x.reranked_rank) p))
ranks_apart other (inr (inr (inl p))) e = absurd (omega (arith, e, ap (λ x. x.reranked_rank) p))
ranks_apart other (inr (inr (inr none_left))) e = absurd none_left

find_reranked_bug_rank-some_example : find_reranked_bug_rank texts (bug 2) rankings 0 ≡ (
    let tied = tied_with texts (sort le_reranked rankings) (reranked 2 (some (codes "0.5"))) in
    some (top (sum_reranked tied) (length tied), some (reranked 2 (some (codes "0.5")))))
find_reranked_bug_rank-some_example =
    find_reranked_bug_rank-some texts (bug 2) rankings 0 (reranked 2 (some (codes "0.5")))
      second_is_bug ranks_apart

-- Their average rank is three halves.
tied_average :
    average (tied_with texts (sort le_reranked rankings) (reranked 2 (some (codes "0.5")))) ≡ (3, 2)
unfolding tied_with sort sum_reranked score_key ScoreKey-discrete matching strip text_eq
tied_average = refl
