-- ===== src/Ranks/Ties.antt =====
-- `iter_suspiciousness_tie_groups`: the ranked blocks in groups of equal suspiciousness.
use mathlib.Core.List.{Perm, flat_map}
use ibex.Base.Text.{text_eq}
use ibex.Base.{
  ℕ, ◌+◌, ◌<◌, ◌≡◌, ◌≢◌, refl, ap, ◌∙◌, Bool, List, [], ◌∷◌, ◌++◌, append_assoc, leb, length,
  length-append, All, arith, All-append,
}
use ibex.Base.Sorting.{sort, IsSorted, sort-perm, sort-IsSorted}
use ibex.Sbfl.{RankedBlock}
use ibex.Ranks.Report.{Decimals, SusKey, num, text, suspiciousness_key}

abbrev pub le_rank : RankedBlock → RankedBlock → Bool
le_rank a b = leb a.rank b.rank

unfoldable pub sum_ranks : List RankedBlock → ℕ
sum_ranks [] = 0
sum_ranks (x ∷ xs) = x.rank + sum_ranks xs

-- A group with the average of its ranks, `total / count`.
pub record Group : Type 0 where
  pub items : List RankedBlock
  pub total : ℕ
  pub count : ℕ

unfoldable pub close : List RankedBlock → Group
unfolding sum_ranks
close current = record { items = current; total = sum_ranks current; count = length current }

module _ (D : Decimals) where
  unfoldable pub SusKey-discrete : Discrete (SusKey D)
  SusKey-discrete (num a) (num b) = elim (D.discrete a b) [
    | yes p ↦ yes (ap num p)
    | no n ↦ no (λ e. n (cc))
  ]
  SusKey-discrete (num a) (text t) = no (λ e. cc)
  SusKey-discrete (text s) (num b) = no (λ e. cc)
  SusKey-discrete (text s) (text t) = elim (text_eq.dec s t) [
    | yes p ↦ yes (ap text p)
    | no n ↦ no (λ e. n (cc))
  ]

  abbrev pub key_of : RankedBlock → SusKey D
  key_of item = suspiciousness_key D item.sus

  -- The loop, with the group that is being filled; it is never empty behind the first item.
  unfoldable pub group_loop : List RankedBlock → SusKey D → List RankedBlock → List Group
  unfolding close
  group_loop current current_key [] = close current ∷ []
  group_loop current current_key (item ∷ items) = elim (SusKey-discrete (key_of item) current_key) [
    | yes _ ↦ group_loop (current ++ item ∷ []) (key_of item) items
    | no _ ↦ close current ∷ group_loop (item ∷ []) (key_of item) items
  ]

  unfoldable pub group_sorted : List RankedBlock → List Group
  unfolding group_loop
  group_sorted [] = []
  group_sorted (item ∷ items) = group_loop (item ∷ []) (key_of item) items

  unfoldable pub tie_groups : List RankedBlock → List Group
  unfolding group_sorted sort
  tie_groups ranked_blocks = group_sorted (sort le_rank ranked_blocks)

  -- One tie: items of the key `k`, at least one, with the sum of their ranks and their number.
  pub record IsTie (k : SusKey D) (g : Group) : Type 0 where
    pub tied : All (λ item. key_of item ≡ k) g.items
    pub filled : 0 < length g.items
    pub total_is : g.total ≡ sum_ranks g.items
    pub count_is : g.count ≡ length g.items

  -- Ties, the first of the key `k`, where neighbours have different keys.
  abbrev pub AreTies : SusKey D → List Group → Type 0
  AreTies k [] = ⊥
  AreTies k (g ∷ []) = IsTie k g
  AreTies k (g ∷ h ∷ gs) = IsTie k g × ((j : SusKey D) × (j ≢ k) × AreTies j (h ∷ gs))

  AreTies-cons :
      (k j : SusKey D) (g : Group) (gs : List Group)
      → IsTie k g
      → j ≢ k
      → AreTies j gs
      → AreTies k (g ∷ gs)
  AreTies-cons k j g [] t ne h = absurd h
  AreTies-cons k j g (x ∷ gs) t ne h = (t, (j, ne, h))

  close-IsTie :
      (k : SusKey D) (current : List RankedBlock)
      → All (λ item. key_of item ≡ k) current
      → 0 < length current
      → IsTie k (close current)
  unfolding close
  close-IsTie k current h l = record { tied = h; filled = l; total_is = refl; count_is = refl }

  group_loop-AreTies :
      (k : SusKey D) (current items : List RankedBlock)
      → All (λ item. key_of item ≡ k) current
      → 0 < length current
      → AreTies k (group_loop current k items)
  unfolding group_loop
  group_loop-AreTies k current [] h l = close-IsTie k current h l
  group_loop-AreTies k current (item ∷ items) h l =
      elim (SusKey-discrete (key_of item) k)
        as (λ d. AreTies k (elim d [
          | yes _ ↦ group_loop (current ++ item ∷ []) (key_of item) items
          | no _ ↦ close current ∷ group_loop (item ∷ []) (key_of item) items
        ])) [
          | yes p ↦ rw p (
              group_loop-AreTies k (current ++ item ∷ []) items
                (All-append _ current (item ∷ []) h (p, tt))
                (omega (arith, length-append current (item ∷ []))))
          | no n ↦
              AreTies-cons k (key_of item) (close current) _ (close-IsTie k current h l) n
                (group_loop-AreTies (key_of item) (item ∷ []) items (refl, tt) (omega arith))
        ]

  group_loop-flat :
      (k : SusKey D) (current items : List RankedBlock)
      → flat_map (λ g. g.items) (group_loop current k items) ≡ current ++ items
  unfolding group_loop flat_map close
  group_loop-flat k current [] = refl
  group_loop-flat k current (item ∷ items) =
      elim (SusKey-discrete (key_of item) k)
        as (λ d.
          flat_map (λ g. g.items)
            (elim d [
              | yes _ ↦ group_loop (current ++ item ∷ []) (key_of item) items
              | no _ ↦ close current ∷ group_loop (item ∷ []) (key_of item) items
            ])
          ≡ current ++ item ∷ items) [
            | yes p ↦
                group_loop-flat (key_of item) (current ++ item ∷ []) items
                ∙ append_assoc current _ _
            | no n ↦ ap (◌++◌ current) (group_loop-flat (key_of item) (item ∷ []) items)
          ]

  abbrev pub AreGroups : List Group → Type 0
  AreGroups [] = Unit
  AreGroups (g ∷ gs) = (k : SusKey D) × AreTies k (g ∷ gs)

  AreTies→AreGroups : (k : SusKey D) (gs : List Group) → AreTies k gs → AreGroups gs
  AreTies→AreGroups k [] h = tt
  AreTies→AreGroups k (g ∷ gs) h = (k, h)

  unfoldable pub flat : List Group → List RankedBlock
  flat = flat_map (λ g. g.items)

  group_sorted_lem :
      (items : List RankedBlock)
      → AreGroups (group_sorted items) × (flat (group_sorted items) ≡ items)
  unfolding group_sorted flat flat_map
  group_sorted_lem [] = (tt, refl)
  group_sorted_lem (item ∷ items) = (
    AreTies→AreGroups _ _
        (group_loop-AreTies (key_of item) (item ∷ []) items (refl, tt) (omega arith)),
    group_loop-flat (key_of item) (item ∷ []) items,
  )

  -- The groups are ties: each has items of one key only, with their number and the sum of their
  -- ranks, and neighbours have different keys. Together they are the given blocks, each as often
  -- as it was given, in ascending order of rank.
  pub tie_groups-AreGroups :
      (ranked_blocks : List RankedBlock)
      → AreGroups (tie_groups ranked_blocks)
        × IsSorted le_rank (flat (tie_groups ranked_blocks))
        × Perm (flat (tie_groups ranked_blocks)) ranked_blocks
  unfolding tie_groups
  tie_groups-AreGroups ranked_blocks =
      let sorted = sort le_rank ranked_blocks in
      let (ties, flat_is) = group_sorted_lem sorted in
      (
        ties,
        rw flat_is (sort-IsSorted le_rank (λ x y h. ground arith) ranked_blocks),
        rw flat_is (sort-perm le_rank ranked_blocks),
      )

  pub flat-tie_groups :
      (ranked_blocks : List RankedBlock)
      → flat (tie_groups ranked_blocks) ≡ sort le_rank ranked_blocks
  unfolding tie_groups
  flat-tie_groups ranked_blocks = (group_sorted_lem (sort le_rank ranked_blocks)).1
