-- ===== src/TraceDiff/Entries.antt =====
-- What the entries of a parsed log and of a difference point back to.
use ibex.Base.{
  ℕ, zero, suc, ◌+◌, ◌-◌, ◌<◌, ◌≡◌, refl, ◌⊎◌, sym, Option, none, some, List, [], ◌∷◌, ◌++◌, arith,
  length, get_elem?, Bool, true, false, Bool-cases, String, inl, inr, if◌then◌else◌, is_empty, All,
  All-append, Option-cases,
}
use mathlib.Core.Path.{subst}
use native.Mathlib.Nat.{add-zero, zero-add}
use ibex.Base.Text.{Text}
use ibex.TraceDiff.{
  TraceEntry, DiffEntry, parse_line, parse_lines, parse_trace_log, compare_entries, get_diff_fields,
  limit_reached, diff_loop, ℤ, pos, DiffResult, compare_len, diffs, skip_exceeds, collect_diffs,
}

module _ (as' bs : List TraceEntry) (sa sb : ℕ) where
  -- The entries stand at the recorded index behind the skips, an absent one past the end, and a
  -- field is named.
  pub record IsGrounded (d : DiffEntry) : Type 0 where
    pub left : d.a ≡ get_elem? as' (sa + d.compare_idx_after_skip)
    pub right : d.b ≡ get_elem? bs (sb + d.compare_idx_after_skip)
    pub named : is_empty d.diff_fields ≡ false

  compare_entries-IsGrounded :
      (i : ℕ) (a b : Option TraceEntry)
      → get_elem? as' (sa + i) ≡ a
      → get_elem? bs (sb + i) ≡ b
      → All IsGrounded (compare_entries i a b)
  unfolding compare_entries
  compare_entries-IsGrounded i (some a) (some b) ha hb =
      elim (Bool-cases (is_empty (get_diff_fields a b))) [
        | inl e ↦ rw e tt
        | inr e ↦ rw e (record { left = sym ha; right = sym hb; named = e }, tt)
      ]
  compare_entries-IsGrounded i (some a) none ha hb =
      (record { left = sym ha; right = sym hb; named = refl }, tt)
  compare_entries-IsGrounded i none (some b) ha hb =
      (record { left = sym ha; right = sym hb; named = refl }, tt)
  compare_entries-IsGrounded i none none ha hb = tt

  diff_loop-IsGrounded :
      (limit : Option ℤ) (rounds i : ℕ) (ds : List DiffEntry)
      → All IsGrounded ds
      → All IsGrounded (diff_loop as' bs sa sb limit rounds i ds)
  unfolding diff_loop
  diff_loop-IsGrounded limit zero i ds h = h
  diff_loop-IsGrounded limit (suc rounds) i ds h =
      let more = compare_entries i (get_elem? as' (sa + i)) (get_elem? bs (sb + i)) in
      let h' : All IsGrounded (ds ++ more) =
        All-append IsGrounded ds more h (compare_entries-IsGrounded i _ _ refl refl) in
      elim (Bool-cases (limit_reached limit (length (ds ++ more)))) [
        | inl e ↦ rw e h'
        | inr e ↦ rw e (diff_loop-IsGrounded limit rounds (suc i) (ds ++ more) h')
      ]

abbrev OnDiffs : (List DiffEntry → Type 0) → DiffResult → Type 0
OnDiffs P (diffs ds) = P ds
OnDiffs P _ = Unit

-- Every reported difference shows the entries that stand at its index behind the skips, an entry
-- is left out only past the end of its log, and at least one field is named, under every limit.
collect_diffs-IsGrounded :
    (as' bs : List TraceEntry) (sa sb : ℕ) (limit : Option ℤ) {ds : List DiffEntry}
    → collect_diffs as' (pos sa) bs (pos sb) limit ≡ diffs ds
    → All (IsGrounded as' bs sa sb) ds
unfolding collect_diffs
collect_diffs-IsGrounded as' bs sa sb limit {ds} h =
    subst (OnDiffs (All (IsGrounded as' bs sa sb))) h (cases (Bool-cases _) (Bool-cases _))
  where
    found :
        All (IsGrounded as' bs sa sb) (diff_loop as' bs sa sb limit (compare_len as' bs sa sb) 0 [])
    found = diff_loop-IsGrounded as' bs sa sb limit _ 0 [] tt

    cases :
        {b c : Bool}
        → (b ≡ true) ⊎ (b ≡ false)
        → (c ≡ true) ⊎ (c ≡ false)
        → OnDiffs (All (IsGrounded as' bs sa sb)) (
            if b
            then skip_exceeds "skip_a"
            else if c
            then skip_exceeds "skip_b"
            else diffs (diff_loop as' bs sa sb limit (compare_len as' bs sa sb) 0 []))
    cases (inl e) _ = rw e tt
    cases (inr e) (inl e') = rw (e, e') tt
    cases (inr e) (inr e') = rw (e, e') found

-- The entry is number `n` and its text is the line of the file that `line_no` (from 1) names.
pub record IsNumbered (path : String) (file : List Text) (n : ℕ) (e : TraceEntry) : Type 0 where
  pub file_is : e.file ≡ path
  pub index_is : e.trace_idx ≡ n
  pub line_is : get_elem? file (e.line_no - 1) ≡ some e.raw_line
  pub past_header : 1 < e.line_no

-- The entries are numbered from `n` on.
abbrev pub AllNumbered : String → List Text → ℕ → List TraceEntry → Type 0
AllNumbered path file n [] = Unit
AllNumbered path file n (e ∷ es) = IsNumbered path file n e × AllNumbered path file (suc n) es

shift : (n m : ℕ) → n + suc m ≡ suc n + m
shift n m = omega arith

AllNumbered-snoc :
    (path : String) (file : List Text) (n : ℕ) (es : List TraceEntry) (e : TraceEntry)
    → AllNumbered path file n es
    → IsNumbered path file (n + length es) e
    → AllNumbered path file n (es ++ e ∷ [])
AllNumbered-snoc path file n [] e h k = (rw add-zero at k, tt)
AllNumbered-snoc path file n (x ∷ es) e h k =
    (h.0, AllNumbered-snoc path file (suc n) es e h.1 (rw (shift n (length es)) at k))

parse_line-IsNumbered :
    (path : String) (exact : Bool) (file : List Text) (n i : ℕ) (line : Text) (e : TraceEntry)
    → get_elem? file (suc n) ≡ some line
    → parse_line path exact (suc (suc n)) i line ≡ some e
    → IsNumbered path file i e
unfolding parse_line
parse_line-IsNumbered path exact file n i line e at_line h = ground (arith, at_line)

parse_lines-AllNumbered :
    (path : String) (exact : Bool) (file : List Text) (n : ℕ) (es : List TraceEntry)
    (lines : List Text)
    → ((j : ℕ) → get_elem? lines j ≡ get_elem? file (suc n + j))
    → AllNumbered path file 0 es
    → AllNumbered path file 0 (parse_lines path exact (suc (suc n)) es lines)
unfolding parse_lines
parse_lines-AllNumbered path exact file n es [] at h = h
parse_lines-AllNumbered path exact file n es (line ∷ lines) at h =
    elim (Option-cases (parse_line path exact (suc (suc n)) (length es) line)) [
      | inl e ↦ rw e (parse_lines-AllNumbered path exact file (suc n) es lines later h)
      | inr (x, e) ↦ rw e (
          parse_lines-AllNumbered path exact file (suc n) (es ++ x ∷ []) lines later (
            AllNumbered-snoc path file 0 es x h (
              rw (zero-add (length es)) (
                parse_line-IsNumbered path exact file n (length es) line x
                  (rw (add-zero (suc n)) at (sym (at 0))) e))))
    ]
  where
    later : (j : ℕ) → get_elem? lines j ≡ get_elem? file (suc (suc n) + j)
    later j = rw (shift (suc n) j) at (at (suc j))

-- The parsed entries are numbered from 0 in the order of the file without gaps, and each holds
-- the very line of the file that its line number names, which is never the header.
pub parse_trace_log-AllNumbered :
    (path : String) (exact : Bool) (file : List Text)
    → AllNumbered path file 0 (parse_trace_log path exact file)
unfolding parse_trace_log
parse_trace_log-AllNumbered path exact [] = tt
parse_trace_log-AllNumbered path exact (header ∷ lines) =
    parse_lines-AllNumbered path exact (header ∷ lines) 0 [] lines (λ j. rw (one_more j)) tt
  where
    one_more : (j : ℕ) → 1 + j ≡ suc j
    one_more j = omega arith
