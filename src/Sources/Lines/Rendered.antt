-- ===== src/Sources/Lines/Rendered.antt =====
-- What `_render_selected` shows of a selection.
use ibex.Base.{
  ℕ, zero, suc, ◌-◌, ◌<◌, ◌≡◌, refl, ◌∙◌, inl, inr, true, false, List, [], ◌∷◌, ◌++◌, Bool-cases,
  Option, none, some, arith, get_elem?, length,
}
use ibex.Base.Results.{ok}
use ibex.Base.Text.{Text}
use ibex.Sources.Lines.{Shown, numbered, omitted, is_blank, gap_note, render_loop}
use ibex.Sources.Lines.Reach.{AreLines}

-- The source lines among what is shown, with their numbers.
abbrev pub shown_lines : List Shown → List (ℕ × Text)
shown_lines [] = []
shown_lines (numbered n text ∷ out) = (n, text) ∷ shown_lines out
shown_lines (omitted a b ∷ out) = shown_lines out

-- The selected lines that hold text.
pub kept : List Text → List ℕ → List (ℕ × Text)
kept lines [] = []
kept lines (n ∷ selected) = elim (get_elem? lines (n - 1)) [
  | none ↦ kept lines selected
  | some text ↦ elim (is_blank text) [
    | true ↦ kept lines selected
    | false ↦ (n, text) ∷ kept lines selected
  ]
]

in_text : (lines : List Text) (i : ℕ) → i < length lines → (t : Text) × (get_elem? lines i ≡ some t)
in_text [] i h = absurd (omega arith)
in_text (t ∷ lines) zero h = (t, refl)
in_text (t ∷ lines) (suc i) h = in_text lines i (omega arith)

gap_note-shown :
    (lines : List Text) (previous : Option ℕ) (n : ℕ) (out : List Shown)
    → shown_lines (gap_note lines previous n ++ out) ≡ shown_lines out
unfolding gap_note
gap_note-shown lines none n out = refl
gap_note-shown lines (some p) n out = ground arith

-- A selection of lines of the text is always shown, never with an index error: exactly the
-- selected lines that hold text, in their order, each behind its own number.
pub render_loop-kept :
    (lines : List Text) (previous : Option ℕ) (selected : List ℕ)
    → AreLines (length lines) selected
    → (out : List Shown) × (render_loop lines previous selected ≡ ok out)
      × (shown_lines out ≡ kept lines selected)
unfolding render_loop kept
render_loop-kept lines previous [] h = ([], refl, refl)
render_loop-kept lines previous (n ∷ selected) ((lo, hi), h) =
    let (text, e) = in_text lines (n - 1) (omega arith) in
    elim (Bool-cases (is_blank text)) [
      | inl blank ↦
          let (out, r, s) = render_loop-kept lines previous selected h in
          (out, ground (arith, e, blank, r), ground (arith, e, blank, s))
      | inr text_on ↦
          let (out, r, s) = render_loop-kept lines (some n) selected h in
          (
            gap_note lines previous n ++ numbered n text ∷ out,
            ground (arith, e, text_on, r),
            gap_note-shown lines previous n (numbered n text ∷ out) ∙ ground (arith, e, text_on, s),
          )
    ]
