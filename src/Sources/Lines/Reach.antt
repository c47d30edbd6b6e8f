-- ===== src/Sources/Lines/Reach.antt =====
-- Which lines `_expanded_lines` selects, and when it refuses.
use Prim.Native.Nat.{max}
use ibex.Base.{
  ℕ, ◌+◌, ◌-◌, ◌≤◌, ◌≡◌, refl, ◌↔◌, ◌⊎◌, inl, inr, false, List, [], ◌∷◌, ltb, ◌||◌, All, Bool-cases,
  arith,
}
use ibex.Base.Results.{ok}
use ibex.Base.Sets.{update, In, In-range, In-update}
use ibex.Sources.Lines.{window, expand_loop, expanded_lines}

-- Line `n` of the text is in reach of a core line.
abbrev pub InReach : ℕ → ℕ → ℕ → List ℕ → Type 0
InReach line_count radius n [] = ⊥
InReach line_count radius n (line ∷ core_lines) =
    (1 ≤ n) × (n ≤ line_count) × (line ≤ n + radius) × (n ≤ line + radius)
    ⊎ InReach line_count radius n core_lines

-- Every core line is a line of the text.
abbrev pub AreLines : ℕ → List ℕ → Type 0
AreLines line_count = All (λ line. (1 ≤ line) × (line ≤ line_count))

In-window :
    (line_count radius line n : ℕ)
    → 1 ≤ line
    → line ≤ line_count
    → In n (window line_count radius line)
      ↔ ((1 ≤ n) × (n ≤ line_count) × (line ≤ n + radius) × (n ≤ line + radius))
unfolding window
In-window line_count radius line n lo hi = (
  λ h.
      let h' = (In-range n first _).0 h in
      (omega (arith, h'), omega (arith, h'), omega (arith, h'), omega (arith, h')),
  λ (a, b, c, d). (In-range n first _).1 (omega arith, omega arith),
)
  where
    first : ℕ
    first = max 1 (line - radius)

guard_lem :
    (line line_count : ℕ)
    → (ltb line 1 || ltb line_count line) ≡ false
    → (1 ≤ line) × (line ≤ line_count)
guard_lem line line_count h = ground arith

expand_loop-ok :
    (selected core_lines : List ℕ) (line_count radius : ℕ)
    → AreLines line_count core_lines
    → (result : List ℕ) × (expand_loop selected core_lines line_count radius ≡ ok result)
unfolding expand_loop
expand_loop-ok selected [] line_count radius h = (selected, refl)
expand_loop-ok selected (line ∷ core_lines) line_count radius ((a, b), h) =
    let (result, e) =
      expand_loop-ok (update selected (window line_count radius line)) core_lines line_count radius
        h in
    (result, ground (arith, e))

expand_loop-AreLines :
    (selected core_lines : List ℕ) (line_count radius : ℕ) {result : List ℕ}
    → expand_loop selected core_lines line_count radius ≡ ok result
    → AreLines line_count core_lines
unfolding expand_loop
expand_loop-AreLines selected [] line_count radius h = tt
expand_loop-AreLines selected (line ∷ core_lines) line_count radius h =
    elim (Bool-cases (ltb line 1 || ltb line_count line)) [
      | inl bad ↦ absurd (ground arith)
      | inr good ↦ (
        guard_lem line line_count good,
        expand_loop-AreLines (update selected (window line_count radius line)) core_lines line_count
            radius (rw good at h),
      )
    ]

expand_loop-In :
    (selected core_lines : List ℕ) (line_count radius : ℕ) {result : List ℕ} (n : ℕ)
    → expand_loop selected core_lines line_count radius ≡ ok result
    → In n result ↔ (In n selected ⊎ InReach line_count radius n core_lines)
unfolding expand_loop
expand_loop-In selected [] line_count radius {result} n h =
    let e : selected ≡ result = cc in
    rw (← e) (λ m. inl m, λ m. elim m [ inl k ↦ k | inr k ↦ absurd k ])
expand_loop-In selected (line ∷ core_lines) line_count radius n h =
    elim (Bool-cases (ltb line 1 || ltb line_count line)) [
      | inl bad ↦ absurd (ground arith)
      | inr good ↦
          let (lo, hi) = guard_lem line line_count good in
          let grown = update selected (window line_count radius line) in
          let later = expand_loop-In grown core_lines line_count radius n (rw good at h) in
          let here = In-window line_count radius line n lo hi in
          let joined = In-update n selected (window line_count radius line) in
          (
            λ m. elim (later.0 m) [
              | inl k ↦ elim (joined.0 k) [ inl old ↦ inl old | inr new ↦ inr (inl (here.0 new)) ]
              | inr k ↦ inr (inr k)
            ],
            λ m. elim m [
              | inl old ↦ later.1 (inl (joined.1 (inl old)))
              | inr (inl new) ↦ later.1 (inl (joined.1 (inr (here.1 new))))
              | inr (inr k) ↦ later.1 (inr k)
            ],
          )
    ]

-- Lines are selected exactly if every core line is a line of the text.
pub expanded_lines-ok_iff :
    (core_lines : List ℕ) (line_count radius : ℕ)
    → ((result : List ℕ) × (expanded_lines core_lines line_count radius ≡ ok result))
      ↔ AreLines line_count core_lines
unfolding expanded_lines
expanded_lines-ok_iff core_lines line_count radius = (
  λ (result, e). expand_loop-AreLines [] core_lines line_count radius e,
  λ h. expand_loop-ok [] core_lines line_count radius h,
)

-- The selection is exactly the lines of the text that are at most `radius` away from a core line.
In-expanded_lines :
    (core_lines : List ℕ) (line_count radius : ℕ) (result : List ℕ) (n : ℕ)
    → expanded_lines core_lines line_count radius ≡ ok result
    → In n result ↔ InReach line_count radius n core_lines
unfolding expanded_lines
In-expanded_lines core_lines line_count radius result n h =
    let spec = expand_loop-In [] core_lines line_count radius n h in
    (λ m. elim (spec.0 m) [ inl k ↦ absurd k | inr k ↦ k ], λ m. spec.1 (inr m))
