-- ===== src/Sources/Regions.antt =====
-- `find_module_source`, `_build_regions` and `_source_chars`
use Prim.Native.String.{compare}
use mathlib.Core.List.{flat_map}
use text.Mathlib.Text.{is_le}
use ibex.Base.{
  ℕ, ◌+◌, String, Bool, none, some, List, [], ◌∷◌, ◌++◌, if◌then◌else◌, string_eq, length, take,
  is_empty,
}
use ibex.Base.Dict
use ibex.Base.Dict.{Dict}
use ibex.Base.Results.{ok, err, ◌>>=◌, ◌>>◌, raise_if}
use ibex.Base.Sets.{sorted_set, range}
use ibex.Base.Sorting.{sort}
use ibex.Base.Text.{Text}
use ibex.Sbfl.{Candidate}
use ibex.Sources.Errors.{no_source, many_sources, no_lines, Outcome}
use ibex.Sources.Ranges.{compress_line_ranges}
use ibex.Sources.Lines.{expanded_lines, render_selected}

-- The part of the file system below `rtl_root`: whether `{module}.sv` is a file in it, the sorted
-- paths that `rglob` finds, and the lines of a file.
pub record RtlTree : Type 0 where
  pub is_direct : String → Bool
  pub direct_path : String → String
  pub rglob : String → List String
  pub read_lines : String → List Text

unfoldable pub find_module_source : RtlTree → String → Outcome String
find_module_source rtl name =
    if rtl.is_direct name then ok (rtl.direct_path name) else elim (rtl.rglob name) [
      | [] ↦ err (no_source name)
      | match ∷ [] ↦ ok match
      | match ∷ other ∷ more ↦ err (many_sources name (take 3 (match ∷ other ∷ more)))
    ]

pub record Region : Type 0 where
  pub module_name : String
  pub path : String
  pub candidate_ranges : Dict String Text
  pub source : Text

pub data Mode : Type 0 where
  full snippets : Mode

-- `by_module`: the candidates of each module, in the order of first appearance.
unfoldable pub by_module :
    Dict String (List Candidate) → List Candidate → Dict String (List Candidate)
unfolding Dict.lookup Dict.insert
by_module groups [] = groups
by_module groups (c ∷ cs) = elim (Dict.lookup c.module_name groups) [
  | none ↦ by_module (Dict.insert c.module_name (c ∷ []) groups) cs
  | some old ↦ by_module (Dict.insert c.module_name (old ++ c ∷ []) groups) cs
]

unfoldable pub candidate_ranges : Dict String Text → List Candidate → Dict String Text
unfolding Dict.insert compress_line_ranges
candidate_ranges ranges [] = ranges
candidate_ranges ranges (c ∷ cs) =
    candidate_ranges (Dict.insert c.candidate_id (compress_line_ranges c.lines) ranges) cs

abbrev le_string : String × List Candidate → String × List Candidate → Bool
le_string (a, _) (b, _) = is_le (compare a b)

module _ (rtl : RtlTree) (mode : Mode) (radius : ℕ) where
  unfoldable pub select_lines : List ℕ → ℕ → Outcome (List ℕ)
  unfolding expanded_lines range
  select_lines core_lines line_count = elim mode [
    | full ↦ ok (range 1 line_count)
    | snippets ↦ expanded_lines core_lines line_count radius
  ]

  -- One round of the loop over the modules.
  unfoldable pub build_region : String → List Candidate → Outcome Region
  unfolding find_module_source sorted_set select_lines render_selected candidate_ranges
  build_region name module_candidates = do
    path ← find_module_source rtl name
    let source_lines = rtl.read_lines path
    let core_lines = sorted_set (flat_map (λ c. c.lines) module_candidates)
    raise_if (is_empty core_lines) (no_lines name)
    selected ← select_lines core_lines (length source_lines)
    source ← render_selected source_lines selected
    ok (record {
      module_name = name;
      path = path;
      candidate_ranges = candidate_ranges [] module_candidates;
      source = source;
    })

  unfoldable pub build_loop : Dict String (List Candidate) → Outcome (List Region)
  unfolding build_region
  build_loop [] = ok []
  build_loop ((name, cs) ∷ groups) = do
    region ← build_region name cs
    regions ← build_loop groups
    ok (region ∷ regions)

  unfoldable pub build_regions : List Candidate → Outcome (List Region)
  unfolding build_loop by_module sort
  build_regions candidates = build_loop (sort le_string (by_module [] candidates))

unfoldable pub source_chars : List Region → ℕ
source_chars [] = 0
source_chars (region ∷ regions) = length region.source + source_chars regions
