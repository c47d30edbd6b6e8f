-- ===== src/Examples/SourceText.antt =====
-- A module of three lines for tools/ibex_sbfl_llm snippets.py.
use mathlib.Core.List.{flat_map}
use ibex.Base.{◌≡◌, ◌<◌, refl, true, some, List, [], ◌∷◌, arith, string_eq}
use ibex.Base.Results.{ok}
use ibex.Base.Sets.{sorted_set}
use ibex.Base.Text.{Text, codes}
use ibex.Sbfl.{Candidate}
use ibex.Sources.Ranges.{line_ranges, expand, IsCompact, line_ranges-expand}
use ibex.Sources.Lines.{expanded_lines}
use ibex.Sources.Regions.{RtlTree, Region, build_regions, snippets, source_chars}
use ibex.Sources.Collect.{SourceBundle, bundle, collect_sources}
use ibex.Sources.Collect.Budget.{IsWithin, collect_sources-IsWithin, collect_sources_maximal}

line_ranges-expand_example :
    (expand (line_ranges (sorted_set (7 ∷ 3 ∷ 4 ∷ 3 ∷ []))) ≡ sorted_set (7 ∷ 3 ∷ 4 ∷ 3 ∷ []))
    × IsCompact (line_ranges (sorted_set (7 ∷ 3 ∷ 4 ∷ 3 ∷ [])))
line_ranges-expand_example = line_ranges-expand (7 ∷ 3 ∷ 4 ∷ 3 ∷ [])

window_run : expanded_lines (2 ∷ []) 5 1 ≡ ok (1 ∷ 2 ∷ 3 ∷ [])
unfolding expanded_lines
window_run = refl

abbrev text : List Text
text = codes "module m;" ∷ codes " " ∷ codes "endmodule" ∷ []

abbrev module_text : List Text
module_text = codes "module m;" ∷ codes "a" ∷ codes "endmodule" ∷ []

abbrev rtl : RtlTree
rtl = record {
  is_direct = λ _. true;
  direct_path = λ m. m;
  rglob = λ _. [];
  read_lines = λ _. module_text;
}

abbrev candidates : List Candidate
candidates =
    record {
      candidate_id = "C1";
      original_rank = 1;
      suspiciousness = codes "0.5";
      module_name = "m";
      scope = codes "TOP.m";
      bid = 0;
      lines = 2 ∷ [];
      block_type = "always";
    }
    ∷ []

abbrev regions : Text → List Region
regions source =
    record {
      module_name = "m";
      path = "m";
      candidate_ranges = ("C1", codes "2") ∷ [];
      source = source;
    }
    ∷ []

-- The line alone, and with its neighbours.
abbrev line_alone : List Region
line_alone = regions (codes "   2: a")

abbrev with_neighbours : List Region
with_neighbours = regions (codes "   1: module m;\n   2: a\n   3: endmodule")

built_wide : build_regions rtl snippets 1 candidates ≡ ok with_neighbours
unfolding build_regions flat_map
built_wide = refl

-- Ten characters hold the line alone.
abbrev fitted : SourceBundle
fitted = bundle line_alone snippets (some 0)

fitted_run : collect_sources rtl candidates 10 "snippets" 1 ≡ ok fitted
unfolding collect_sources build_regions source_chars string_eq flat_map
fitted_run = refl

collect_sources-IsWithin_example : IsWithin rtl candidates 10 1 fitted
collect_sources-IsWithin_example =
    collect_sources-IsWithin rtl candidates 10 "snippets" 1 fitted fitted_run

collect_sources_maximal_example : 10 < source_chars with_neighbours
collect_sources_maximal_example =
    collect_sources_maximal rtl candidates 10 "snippets" 1 fitted 0 1 with_neighbours fitted_run
      refl (omega arith) (omega arith) built_wide
