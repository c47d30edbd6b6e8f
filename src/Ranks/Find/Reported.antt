-- ===== src/Ranks/Find/Reported.antt =====
-- What `find_bug_rank` returns about a block of a tie, and the block that it compares it with.
use ibex.Base.{
  ℕ, ◌≤◌, ◌<◌, ltb, Among, All, All-Among, true, false, nat_eqb, nat_eq, ◌≡◌, ◌≢◌, refl, sym, ◌∙◌,
  ◌⊎◌, inl, inr, List, [], ◌∷◌, length, Bool-cases, arith, if◌then◌else◌,
}
use ibex.Sbfl.{RankedBlock}
use ibex.Base.Text.{Text}
use ibex.Ranks.Report.{Decimals, SusKey, Report, over, top}
use ibex.Ranks.Ties.{Group, SusKey-discrete, IsTie, AreTies, AreGroups, sum_ranks, key_of}
use ibex.Ranks.Find.{boundary_of, report_item, reaches}

-- A block of the greatest rank among the given ones.
abbrev pub IsGreatest : RankedBlock → List RankedBlock → Type 0
IsGreatest last blocks = Among last blocks × All (λ other. other.rank ≤ last.rank) blocks

picked :
    (best item : RankedBlock)
    → (((if ltb best.rank item.rank then item else best) ≡ item) × (best.rank ≤ item.rank))
      ⊎ (((if ltb best.rank item.rank then item else best) ≡ best) × (item.rank ≤ best.rank))
picked best item = elim (Bool-cases (ltb best.rank item.rank)) [
  | inl e ↦ inl (rw e refl, ground (arith, e))
  | inr e ↦ inr (rw e refl, ground (arith, e))
]

IsGreatest-cons :
    (last next best item : RankedBlock) (items : List RankedBlock)
    → ((next ≡ item) × (best.rank ≤ item.rank)) ⊎ ((next ≡ best) × (item.rank ≤ best.rank))
    → IsGreatest last (next ∷ items)
    → IsGreatest last (best ∷ item ∷ items)
IsGreatest-cons last next best item items (inl (same, le)) (among, (here, rest)) =
    let at : item.rank ≤ last.rank = rw same at here in
    (inr (rw same at among), (omega (arith, le, at), (at, rest)))
IsGreatest-cons last next best item items (inr (same, le)) (inl is, (here, rest)) =
    let at : best.rank ≤ last.rank = rw same at here in
    (inl (is ∙ same), (at, (omega (arith, le, at), rest)))
IsGreatest-cons last next best item items (inr (same, le)) (inr among, (here, rest)) =
    let at : best.rank ≤ last.rank = rw same at here in
    (inr (inr among), (at, (omega (arith, le, at), rest)))

pub boundary_of-IsGreatest :
    (best : RankedBlock) (items : List RankedBlock)
    → IsGreatest (boundary_of best items) (best ∷ items)
unfolding boundary_of
boundary_of-IsGreatest best [] = (inl refl, (omega arith, tt))
boundary_of-IsGreatest best (item ∷ items) =
    IsGreatest-cons _ (if ltb best.rank item.rank then item else best) best item items
      (picked best item)
      (boundary_of-IsGreatest (if ltb best.rank item.rank then item else best) items)

holds_or_not :
    {P : Type 0} (d : Dec P)
    → (P × (elim d [ yes _ ↦ true | no _ ↦ false ] ≡ true))
      ⊎ ((¬ P) × (elim d [ yes _ ↦ true | no _ ↦ false ] ≡ false))
holds_or_not (yes p) = inl (p, refl)
holds_or_not (no n) = inr (n, refl)

module _ (D : Decimals) where
  AreTies-IsTie :
      (k : SusKey D) (groups : List Group) (g : Group)
      → AreTies D k groups
      → Among g groups
      → (j : SusKey D) × IsTie D j g
  AreTies-IsTie k [] g h i = absurd i
  AreTies-IsTie k (x ∷ []) g h (inl same) = rw same (k, h)
  AreTies-IsTie k (x ∷ []) g h (inr i) = absurd i
  AreTies-IsTie k (x ∷ y ∷ groups) g h (inl same) = rw same (k, h.0)
  AreTies-IsTie k (x ∷ y ∷ groups) g (_, (j, _, h)) (inr i) = AreTies-IsTie j (y ∷ groups) g h i

  pub AreGroups-IsTie :
      (groups : List Group) (g : Group)
      → AreGroups D groups
      → Among g groups
      → (j : SusKey D) × IsTie D j g
  AreGroups-IsTie [] g h i = absurd i
  AreGroups-IsTie (x ∷ groups) g (k, h) i = AreTies-IsTie k (x ∷ groups) g h i

  -- What is returned about an item of the group `g`, in terms of its key: the average rank of the
  -- group where its key is not the boundary's, and otherwise the end of the ranking, if the item
  -- stands there, or past the end.
  abbrev pub IsReport : ℕ → SusKey D → Group → RankedBlock → Report × Text → Type 0
  IsReport top_n boundary_key g item r =
      (key_of D item ≢ boundary_key) × (r ≡ (top (sum_ranks g.items) (length g.items), item.sus))
      ⊎ (key_of D item ≡ boundary_key) × (item.rank ≢ top_n) × (r ≡ (over top_n, []))
      ⊎ (key_of D item ≡ boundary_key) × (item.rank ≡ top_n) × (r ≡ (top top_n 1, item.sus))

  reaches_lem :
      (boundary_key : SusKey D) (g : Group) (k : SusKey D)
      → (items : List RankedBlock) → All (λ item. key_of D item ≡ k) items
      → 0 < length items
      → g.items ≡ items
      → ((k ≡ boundary_key) × (reaches D boundary_key g ≡ true))
        ⊎ ((k ≢ boundary_key) × (reaches D boundary_key g ≡ false))
  unfolding reaches
  reaches_lem boundary_key g k [] h l e = absurd (omega (arith, l))
  reaches_lem boundary_key g k (item ∷ items) (same, _) l e =
      rw (reaches, e, sym same) (holds_or_not (SusKey-discrete D (key_of D item) boundary_key))

  pub report_item-IsReport :
      (top_n : ℕ) (boundary_key k : SusKey D) (g : Group) (item : RankedBlock)
      → IsTie D k g
      → Among item g.items
      → IsReport top_n boundary_key g item (report_item top_n g (reaches D boundary_key g) item)
  unfolding report_item
  report_item-IsReport top_n boundary_key k g item tie i =
      let same = All-Among _ g.items item tie.tied i in
      elim (reaches_lem boundary_key g k g.items tie.tied tie.filled refl) [
        | inr (differs, r) ↦
            rw (report_item, r)
              (inl ((λ p. differs (sym same ∙ p)), rw (tie.total_is, tie.count_is) refl))
        | inl (at, r) ↦ elim (Bool-cases (nat_eqb item.rank top_n)) [
          | inl e ↦ rw (report_item, r, e) (inr (inr (same ∙ at, ground (arith, e), refl)))
          | inr e ↦ rw (report_item, r, e) (inr (inl (same ∙ at, ground (arith, e), refl)))
        ]
      ]
