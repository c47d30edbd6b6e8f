-- ===== src/Sources/Collect.antt =====
-- `collect_sources`
pub mod Budget
use Prim.Native.Nat.{max, min}
use Prim.Native.String.{compare}
use mathlib.Core.List.{flat_map}
use text.Mathlib.Text.{is_le}
use ibex.Base.{
  ℕ, zero, suc, ◌+◌, ◌-◌, ◌≤◌, ◌<◌, ◌≡◌, refl, sym, ap, ◌∙◌, ◌↔◌, ◌⊎◌, inl, inr, String, ◌<>◌, Bool,
  true, false, ◌||◌, not, Option, none, some, List, [], ◌∷◌, ◌++◌, map, ltb, leb, nat_eqb,
  if◌then◌else◌, ◌==◌, contains, string_eq, length, get_elem?, take, drop, is_empty, All,
  Bool-cases, Option-cases, arith, append_assoc, append-nil, tests,
}
use ibex.Base.Dict
use ibex.Base.Dict.{Dict}
use ibex.Base.Results.{Result, ok, err, ◌>>=◌, ◌>>◌, raise_if, >>=-eq-ok}
use ibex.Base.Sets.{
  sorted_set, range, update, Above, IsAscending, In, In-range, In-update, update-IsAscending,
  sorted_set-IsAscending, In-sorted_set,
}
use ibex.Base.Sorting.{sort}
use ibex.Base.Text.{Text, codes, strip, rstrip, join, str}
use ibex.Sbfl.{Candidate}
use ibex.Sources.Errors.{SbflLlmError, unknown_mode, full_too_large, core_too_large, Outcome}
use ibex.Sources.Regions.{RtlTree, Region, Mode, full, snippets, build_regions, source_chars}

pub record SourceBundle : Type 0 where
  pub regions : List Region
  pub source_mode : Mode
  pub effective_radius : Option ℕ
  pub source_chars : ℕ

abbrev pub bundle : List Region → Mode → Option ℕ → SourceBundle
bundle regions mode radius = record {
  regions = regions;
  source_mode = mode;
  effective_radius = radius;
  source_chars = source_chars regions;
}

module _ (rtl : RtlTree) (candidates : List Candidate) (max_chars : ℕ) where
  -- The bundle, if its text fits.
  abbrev pub fitting : Mode → Option ℕ → List Region → Outcome SourceBundle → Outcome SourceBundle
  fitting mode radius regions otherwise =
      if leb (source_chars regions) max_chars then ok (bundle regions mode radius) else otherwise

  -- The error behind the loop.
  unfoldable pub core_error : Outcome SourceBundle
  core_error = do
    core ← build_regions rtl snippets 0 candidates
    err (core_too_large (source_chars core) max_chars)

  -- `for radius in range(snippet_radius, -1, -1)`
  unfoldable pub shrink_loop : ℕ → Outcome SourceBundle
  unfolding core_error
  shrink_loop zero = do
    regions ← build_regions rtl snippets 0 candidates
    fitting snippets (some 0) regions core_error
  shrink_loop (suc radius) =
      let smaller = shrink_loop radius in
      build_regions rtl snippets (suc radius) candidates >>= λ regions.
      fitting snippets (some (suc radius)) regions smaller

  unfoldable pub collect_full : ℕ → Outcome SourceBundle
  collect_full snippet_radius = do
    regions ← build_regions rtl full snippet_radius candidates
    fitting full none regions (err (full_too_large (source_chars regions) max_chars))

  unfoldable pub collect_auto : ℕ → Outcome SourceBundle
  unfolding shrink_loop
  collect_auto snippet_radius = do
    regions ← build_regions rtl full snippet_radius candidates
    fitting full none regions (shrink_loop snippet_radius)

  unfoldable pub collect_sources : String → ℕ → Outcome SourceBundle
  unfolding shrink_loop collect_full collect_auto
  collect_sources source_mode snippet_radius =
      if source_mode == "full"
      then collect_full snippet_radius
      else if source_mode == "auto"
      then collect_auto snippet_radius
      else if source_mode == "snippets"
      then shrink_loop snippet_radius
      else err (unknown_mode source_mode)
