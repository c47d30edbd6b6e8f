-- ===== src/Sources/Lines.antt =====
-- `_expanded_lines` and `_render_selected`
pub mod Reach
pub mod Rendered
use Prim.Native.Nat.{max, min}
use Prim.Native.String.{compare}
use mathlib.Core.List.{flat_map}
use text.Mathlib.Text.{is_le}
use ibex.Base.{
  ℕ, zero, suc, ◌+◌, ◌-◌, ◌≤◌, ◌<◌, ◌≡◌, refl, sym, ap, ◌∙◌, ◌↔◌, ◌⊎◌, inl, inr, String, ◌<>◌, Bool,
  true, false, ◌||◌, not, Option, none, some, List, [], ◌∷◌, ◌++◌, map, ltb, leb, nat_eqb,
  if◌then◌else◌, ◌==◌, contains, string_eq, length, get_elem?, take, drop, is_empty, All,
  Bool-cases, Option-cases, arith, append_assoc, append-nil, tests,
}
use ibex.Base.Dict
use ibex.Base.Dict.{Dict}
use ibex.Base.Results.{Result, ok, err, ◌>>=◌, ◌>>◌, raise_if, >>=-eq-ok}
use ibex.Base.Sets.{
  sorted_set, range, update, Above, IsAscending, In, In-range, In-update, update-IsAscending,
  sorted_set-IsAscending, In-sorted_set,
}
use ibex.Base.Sorting.{sort}
use ibex.Base.Text.{Text, codes, strip, rstrip, join, str}
use ibex.Sbfl.{Candidate}
use ibex.Sources.Errors.{SbflLlmError, line_outside, index_error, Outcome}

-- `range(max(1, line - radius), min(line_count, line + radius) + 1)`
unfoldable pub window : ℕ → ℕ → ℕ → List ℕ
unfolding range
window line_count radius line =
    let first = max 1 (line - radius) in range first (min line_count (line + radius) + 1 - first)

unfoldable pub expand_loop : List ℕ → List ℕ → ℕ → ℕ → Outcome (List ℕ)
unfolding window update
expand_loop selected [] line_count radius = ok selected
expand_loop selected (line ∷ core_lines) line_count radius = do
  raise_if (ltb line 1 || ltb line_count line) (line_outside line line_count)
  expand_loop (update selected (window line_count radius line)) core_lines line_count radius

unfoldable pub expanded_lines : List ℕ → ℕ → ℕ → Outcome (List ℕ)
unfolding expand_loop
expanded_lines = expand_loop []

-- `f"{number:{width}d}"`
unfoldable pub pad : ℕ → Text → Text
pad zero s = s
pad (suc n) s = b' ' ∷ pad n s

unfoldable pub pad_number : ℕ → ℕ → Text
unfolding pad str
pad_number width number = let s = str number in pad (width - length s) s

-- A line of the output: a source line under its number, or a note on the lines left out.
pub data Shown : Type 0 where
  numbered : ℕ → Text → Shown
  omitted : ℕ → ℕ → Shown

unfoldable pub show : ℕ → Shown → Text
unfolding pad_number rstrip
show width (numbered number text) = pad_number width number ++ (codes ": " ++ rstrip text)
show width (omitted first last) =
    codes "... lines " ++ (str first ++ (codes "-" ++ (str last ++ codes " omitted ...")))

unfoldable pub is_blank : Text → Bool
unfolding strip
is_blank text = is_empty (strip text)

unfoldable pub any_text : List Text → Bool
unfolding is_blank
any_text [] = false
any_text (text ∷ texts) = not (is_blank text) || any_text texts

-- The note before line `number`, if text was left out since the last line shown.
unfoldable pub gap_note : List Text → Option ℕ → ℕ → List Shown
unfolding any_text
gap_note lines none number = []
gap_note lines (some previous) number =
    if ltb (previous + 1) number
    then (if any_text (drop previous (take (number - 1) lines))
        then omitted (previous + 1) (number - 1) ∷ []
        else [])
    else []

-- The loop over the sorted selection. An index past the last line is Python's IndexError.
unfoldable pub render_loop : List Text → Option ℕ → List ℕ → Outcome (List Shown)
unfolding gap_note is_blank
render_loop lines previous [] = ok []
render_loop lines previous (number ∷ selected) = elim (get_elem? lines (number - 1)) [
  | none ↦ err index_error
  | some text ↦ elim (is_blank text) [
    | true ↦ render_loop lines previous selected
    | false ↦ do
      rest ← render_loop lines (some number) selected
      ok (gap_note lines previous number ++ numbered number text ∷ rest)
  ]
]

unfoldable pub render_selected : List Text → List ℕ → Outcome Text
unfolding render_loop show join
render_selected lines selected = do
  output ← render_loop lines none selected
  ok (join (codes "\n") (map (show (max 4 (length (str (length lines))))) output))
