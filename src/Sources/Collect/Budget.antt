-- ===== src/Sources/Collect/Budget.antt =====
-- The character budget of `collect_sources`.
use ibex.Base.{
  ℕ, zero, suc, ◌≤◌, ◌<◌, ◌≡◌, ◌≢◌, refl, sym, ap, ◌⊎◌, inl, inr, String, Option, none, some, List,
  string_eq, arith,
}
use mathlib.Core.Path.{subst}
use native.Mathlib.Decide.{ℕ_discrete}
use ibex.Base.Results.{ok, >>=-eq-ok}
use ibex.Sbfl.{Candidate}
use ibex.Sources.Errors.{Outcome}
use ibex.Sources.Regions.{RtlTree, Region, Mode, full, snippets, build_regions, source_chars}
use ibex.Sources.Collect.{
  SourceBundle, shrink_loop, collect_full, collect_auto, collect_sources, core_error, fitting,
  bundle,
}

module _ (rtl : RtlTree) (candidates : List Candidate) (max_chars : ℕ) where
  -- The bundle holds what was built for its mode and radius, its size is the size of that text,
  -- and that is within the budget.
  pub record IsWithin (snippet_radius : ℕ) (b : SourceBundle) : Type 0 where
    pub size : b.source_chars ≡ source_chars b.regions
    pub fits : b.source_chars ≤ max_chars
    pub built :
        (b.source_mode ≡ full)
          × (b.effective_radius ≡ none)
          × (build_regions rtl full snippet_radius candidates ≡ ok b.regions)
        ⊎ ((radius : ℕ) × (radius ≤ snippet_radius)
            × (b.source_mode ≡ snippets)
            × (b.effective_radius ≡ some radius)
            × (build_regions rtl snippets radius candidates ≡ ok b.regions))

  fitting_cases :
      (m : Mode) (r : Option ℕ) (regions : List Region) (otherwise : Outcome SourceBundle)
      (b : SourceBundle)
      → fitting rtl candidates max_chars m r regions otherwise ≡ ok b
      → (source_chars regions ≤ max_chars) × (b ≡ bundle regions m r)
        ⊎ (max_chars < source_chars regions) × (otherwise ≡ ok b)
  fitting_cases m r regions otherwise b h = ground arith

  IsWithin-cut :
      (n radius : ℕ) (regions : List Region) (b : SourceBundle)
      → radius ≤ n
      → build_regions rtl snippets radius candidates ≡ ok regions
      → source_chars regions ≤ max_chars
      → b ≡ bundle regions snippets (some radius)
      → IsWithin n b
  IsWithin-cut n radius regions b le e fits is =
      subst (IsWithin n) (sym is)
        (record { size = refl; fits = fits; built = inr (radius, le, refl, refl, e) })

  IsWithin-suc :
      (n : ℕ) (b : SourceBundle) → b.source_mode ≡ snippets → IsWithin n b → IsWithin (suc n) b
  IsWithin-suc n b mode w = record {
    size = w.size;
    fits = w.fits;
    built = elim w.built [
      | inl (m, _, _) ↦ absurd (ground arith)
      | inr (r, le, m, a, e) ↦ inr (r, omega arith, m, a, e)
    ];
  }

  core_error-ne-ok : (b : SourceBundle) → core_error rtl candidates max_chars ≢ ok b
  unfolding core_error
  core_error-ne-ok b h =
      let (core, _, bad) = >>=-eq-ok (build_regions rtl snippets 0 candidates) _ h in cc

  -- What the loop over the radii returns.
  shrink_loop-IsWithin :
      (radius : ℕ) (b : SourceBundle)
      → shrink_loop rtl candidates max_chars radius ≡ ok b
      → (b.source_mode ≡ snippets) × IsWithin radius b
  unfolding shrink_loop
  shrink_loop-IsWithin zero b h =
      let (regions, e, h') = >>=-eq-ok (build_regions rtl snippets 0 candidates) _ h in
      elim (fitting_cases snippets (some 0) regions _ b h') [
        | inl (fits, is) ↦ (cc, IsWithin-cut 0 0 regions b (omega arith) e fits is)
        | inr (_, bad) ↦ absurd (core_error-ne-ok b bad)
      ]
  shrink_loop-IsWithin (suc radius) b h =
      let (regions, e, h') = >>=-eq-ok (build_regions rtl snippets (suc radius) candidates) _ h in
      elim (fitting_cases snippets (some (suc radius)) regions _ b h') [
        | inl (fits, is) ↦
            (cc, IsWithin-cut (suc radius) (suc radius) regions b (omega arith) e fits is)
        | inr (_, later) ↦
            let (m, w) = shrink_loop-IsWithin radius b later in (m, IsWithin-suc radius b m w)
      ]

  -- A radius that was passed over was too large, or could not be built.
  shrink_loop_maximal :
      (radius : ℕ) (b : SourceBundle) (r s : ℕ) (regions : List Region)
      → shrink_loop rtl candidates max_chars radius ≡ ok b
      → b.effective_radius ≡ some r
      → r < s
      → s ≤ radius
      → build_regions rtl snippets s candidates ≡ ok regions
      → max_chars < source_chars regions
  unfolding shrink_loop
  shrink_loop_maximal zero b r s regions h at lt le e = absurd (omega arith)
  shrink_loop_maximal (suc radius) b r s regions h at lt le e =
      let (found, e', h') = >>=-eq-ok (build_regions rtl snippets (suc radius) candidates) _ h in
      elim (fitting_cases snippets (some (suc radius)) found _ b h') [
        | inl (fits, is) ↦ absurd (ground (arith, ap (λ x. x.effective_radius) is))
        | inr (big, later) ↦ elim (ℕ_discrete s (suc radius)) [
          | yes same ↦ ground arith
          | no other ↦ shrink_loop_maximal radius b r s regions later at lt (omega arith) e
        ]
      ]

  collect_sources_cases :
      (source_mode : String) (n : ℕ) (b : SourceBundle)
      → collect_sources rtl candidates max_chars source_mode n ≡ ok b
      → (collect_full rtl candidates max_chars n ≡ ok b)
        ⊎ (collect_auto rtl candidates max_chars n ≡ ok b)
        ⊎ (shrink_loop rtl candidates max_chars n ≡ ok b)
  unfolding collect_sources
  collect_sources_cases source_mode n b h = ground arith

  IsWithin-whole :
      (n : ℕ) (regions : List Region) (b : SourceBundle)
      → build_regions rtl full n candidates ≡ ok regions
      → source_chars regions ≤ max_chars
      → b ≡ bundle regions full none
      → IsWithin n b
  IsWithin-whole n regions b e fits is =
      subst (IsWithin n) (sym is) (record { size = refl; fits = fits; built = inl (refl, refl, e) })

  collect_full-IsWithin :
      (n : ℕ) (b : SourceBundle)
      → collect_full rtl candidates max_chars n ≡ ok b
      → (b.source_mode ≡ full) × IsWithin n b
  unfolding collect_full
  collect_full-IsWithin n b h =
      let (regions, e, h') = >>=-eq-ok (build_regions rtl full n candidates) _ h in
      elim (fitting_cases full none regions _ b h') [
        | inl (fits, is) ↦ (cc, IsWithin-whole n regions b e fits is)
        | inr (_, bad) ↦ cc
      ]

  -- What `auto` returns: the full text, or the result of the loop.
  collect_auto_cases :
      (n : ℕ) (b : SourceBundle)
      → collect_auto rtl candidates max_chars n ≡ ok b
      → (b.source_mode ≡ full) × IsWithin n b ⊎ (shrink_loop rtl candidates max_chars n ≡ ok b)
  unfolding collect_auto
  collect_auto_cases n b h =
      let (regions, e, h') = >>=-eq-ok (build_regions rtl full n candidates) _ h in
      elim (fitting_cases full none regions _ b h') [
        | inl (fits, is) ↦ inl (cc, IsWithin-whole n regions b e fits is)
        | inr (_, later) ↦ inr later
      ]

  -- A result holds the full text, or comes from the loop over the radii.
  collect_sources_split :
      (source_mode : String) (n : ℕ) (b : SourceBundle)
      → collect_sources rtl candidates max_chars source_mode n ≡ ok b
      → (b.source_mode ≡ full) × IsWithin n b ⊎ (shrink_loop rtl candidates max_chars n ≡ ok b)
  collect_sources_split source_mode n b h = elim (collect_sources_cases source_mode n b h) [
    | inl f ↦ inl (collect_full-IsWithin n b f)
    | inr (inl a) ↦ collect_auto_cases n b a
    | inr (inr l) ↦ inr l
  ]

  -- A result never exceeds the character budget, reports the true size of its text, and holds the
  -- full sources or the windows of one radius that is at most the one asked for.
  pub collect_sources-IsWithin :
      (source_mode : String) (n : ℕ) (b : SourceBundle)
      → collect_sources rtl candidates max_chars source_mode n ≡ ok b
      → IsWithin n b
  collect_sources-IsWithin source_mode n b h = elim (collect_sources_split source_mode n b h) [
    | inl (_, w) ↦ w
    | inr l ↦ (shrink_loop-IsWithin n b l).1
  ]

  -- The radius of a result is the largest that fits: every larger one up to the one asked for
  -- needs more characters than the budget.
  pub collect_sources_maximal :
      (source_mode : String) (n : ℕ) (b : SourceBundle) (r s : ℕ) (regions : List Region)
      → collect_sources rtl candidates max_chars source_mode n ≡ ok b
      → b.effective_radius ≡ some r
      → r < s
      → s ≤ n
      → build_regions rtl snippets s candidates ≡ ok regions
      → max_chars < source_chars regions
  collect_sources_maximal source_mode n b r s regions h at lt le e =
      elim (collect_sources_split source_mode n b h) [
        | inl (m, w) ↦ elim w.built [
          | inl (_, no_radius, _) ↦ absurd (ground arith)
          | inr (_, _, m', _, _) ↦ absurd (ground arith)
        ]
        | inr l ↦ shrink_loop_maximal n b r s regions l at lt le e
      ]
