-- ===== src/Ranks/Reranked/Average.antt =====
-- What `find_reranked_bug_rank` returns.
use ibex.Base.{
  ℕ, ◌≡◌, refl, sym, ap, ◌∙◌, inl, inr, Bool, false, Option, none, some, List, [], ◌∷◌, length,
  arith, Bool-cases, if◌then◌else◌, ◌==◌, nat_eq, Eq, Among,
}
use ibex.Base.Dict.{Dict, lookup, insert, lookup-insert}
use ibex.Base.Grouping.{group_from, matching, group_from_sound, group_from_complete}
use ibex.Base.Sorting.{sort, Among-sort}
use mathlib.Core.Option.{some-injective}
use ibex.Sbfl.{BugInfo}
use ibex.Ranks.Report.{Decimals, top}
use ibex.Ranks.Find.{line_set_with_window}
use ibex.Ranks.Reranked.{
  Reranked, ScoreKey, ScoreKey-discrete, score_key, le_reranked, Average, sum_reranked, average,
  assign, average_from, average_ranks, is_bug_item, report_first, find_reranked_bug_rank,
}

-- Each item of the rank `r` has the mean `v`.
abbrev Assigns : ℕ → Average → Average → List Reranked → Type 0
Assigns r v mean items = (x : Reranked) → Among x items → x.reranked_rank ≡ r → mean ≡ v

insert-same :
    (r own : ℕ) (v mean : Average) (d : Dict ℕ Average)
    → (own ≡ r → mean ≡ v)
    → lookup r d ≡ some v
    → lookup r (insert own mean d) ≡ some v
unfolding nat_eq
insert-same r own v mean d means old = elim (Bool-cases (r == own)) [
  | inl e ↦ rw (lookup-insert r own mean d, e) (ap some (means (ground (arith, e))))
  | inr e ↦ rw (lookup-insert r own mean d, e) old
]

insert-own : (r : ℕ) (mean : Average) (d : Dict ℕ Average) → lookup r (insert r mean d) ≡ some mean
unfolding nat_eq
insert-own r mean d = elim (Bool-cases (r == r)) [
  | inl e ↦ rw (lookup-insert r r mean d, e) refl
  | inr e ↦ absurd (ground (arith, e))
]

assign-keeps :
    (r : ℕ) (v mean : Average) (items : List Reranked) (d : Dict ℕ Average)
    → Assigns r v mean items
    → lookup r d ≡ some v
    → lookup r (assign mean items d) ≡ some v
unfolding assign
assign-keeps r v mean [] d means old = old
assign-keeps r v mean (x ∷ items) d means old =
    assign-keeps r v mean items (insert x.reranked_rank mean d) (λ y i. means y (inr i))
      (insert-same r x.reranked_rank v mean d (means x (inl refl)) old)

assign-hits :
    (r : ℕ) (v mean : Average) (items : List Reranked) (d : Dict ℕ Average) (x : Reranked)
    → Assigns r v mean items
    → Among x items
    → x.reranked_rank ≡ r
    → lookup r (assign mean items d) ≡ some v
unfolding assign
assign-hits r v mean [] d x means i e = absurd i
assign-hits r v mean (y ∷ items) d x means (inl p) e =
    let own : y.reranked_rank ≡ r = ap (λ z. z.reranked_rank) (sym p) ∙ e in
    assign-keeps r v mean items (insert y.reranked_rank mean d) (λ z i. means z (inr i))
      (rw own (insert-own r mean d ∙ ap some (means y (inl refl) own)))
assign-hits r v mean (y ∷ items) d x means (inr i) e =
    assign-hits r v mean items (insert y.reranked_rank mean d) x (λ z j. means z (inr j)) i e

module _ {K : Type 0} (r : ℕ) (v : Average) where
  -- Each group with an item of the rank `r` has the average `v`.
  abbrev AllAssign : Dict K (List Reranked) → Type 0
  AllAssign groups =
      (k : K) (group : List Reranked) → Among (k, group) groups → Assigns r v (average group) group

  average_from-keeps :
      (groups : Dict K (List Reranked)) (d : Dict ℕ Average)
      → AllAssign groups
      → lookup r d ≡ some v
      → lookup r (average_from groups d) ≡ some v
  unfolding average_from
  average_from-keeps [] d means old = old
  average_from-keeps ((k, group) ∷ groups) d means old =
      average_from-keeps groups (assign (average group) group d) (λ j g i. means j g (inr i))
        (assign-keeps r v (average group) group d (means k group (inl refl)) old)

  average_from-hits :
      (groups : Dict K (List Reranked)) (d : Dict ℕ Average) (k : K) (group : List Reranked)
      (x : Reranked)
      → AllAssign groups
      → Among (k, group) groups
      → Among x group
      → x.reranked_rank ≡ r
      → lookup r (average_from groups d) ≡ some v
  unfolding average_from
  average_from-hits [] d k group x means i j e = absurd i
  average_from-hits ((own, others) ∷ groups) d k group x means (inl p) j e =
      average_from-keeps groups (assign (average others) others d) (λ l g i. means l g (inr i))
        (assign-hits r v (average others) others d x (means own others (inl refl)) (rw here at j) e)
    where
      here : group ≡ others
      here = ap (λ z. z.1) p
  average_from-hits ((own, others) ∷ groups) d k group x means (inr i) j e =
      average_from-hits groups (assign (average others) others d) k group x
        (λ l g m. means l g (inr m)) i j e

module _ {K : Type 0} {V : Type 0} ⦃e : Eq K⦄ (key : V → K) where
  Among-matching :
      (k : K) (xs : List V) (x : V) → Among x (matching key k xs) → Among x xs × (k ≡ key x)
  unfolding matching
  Among-matching k [] x i = absurd i
  Among-matching k (y ∷ xs) x i = elim (Bool-cases (k == key y)) [
    | inl p ↦ elim (rw (matching, p) at i) [
      | inl same ↦ (inl same, rw same (ground (arith, p)))
      | inr j ↦ let (a, b) = Among-matching k xs x j in (inr a, b)
    ]
    | inr p ↦ let (a, b) = Among-matching k xs x (rw (matching, p) at i) in (inr a, b)
  ]

  matching-Among : (xs : List V) (x : V) → Among x xs → Among x (matching key (key x) xs)
  unfolding matching
  matching-Among [] x i = absurd i
  matching-Among (y ∷ xs) x i = elim (Bool-cases (key x == key y)) [
    | inl p ↦ elim i [ inl same ↦ rw p (inl same) | inr j ↦ rw p (inr (matching-Among xs x j)) ]
    | inr p ↦ elim i [
      | inl same ↦ absurd (apart (ap key same) p)
      | inr j ↦ rw p (matching-Among xs x j)
    ]
  ]
    where
      apart : key x ≡ key y → (key x == key y) ≡ false → ⊥
      apart same differ = ground (arith, same, differ)

-- The items of the score of `item`, in order.
unfoldable pub tied_with : Decimals → List Reranked → Reranked → List Reranked
unfolding matching score_key ScoreKey-discrete
tied_with D ordered item =
    let instance keys : Eq (ScoreKey D) = record { dec = ScoreKey-discrete D } in
    matching (score_key D) (score_key D item) ordered

-- The first item that the test accepts.
unfoldable pub first_item : (Reranked → Bool) → List Reranked → Option Reranked
first_item is_bug [] = none
first_item is_bug (x ∷ xs) = if is_bug x then some x else first_item is_bug xs

lookup-average_ranks :
    (D : Decimals) (ordered : List Reranked) (item : Reranked)
    → Among item ordered
    → ((other : Reranked)
        → Among other ordered
        → other.reranked_rank ≡ item.reranked_rank
        → score_key D item ≡ score_key D other)
    → lookup item.reranked_rank (average_ranks D ordered)
      ≡ some (average (tied_with D ordered item))
unfolding average_ranks tied_with
lookup-average_ranks D ordered item i same =
    let instance keys : Eq (ScoreKey D) = record { dec = ScoreKey-discrete D } in
    let key : Reranked → ScoreKey D = score_key D in
    let tied : List Reranked = matching key (key item) ordered in
    let j : Among item tied = matching-Among key ordered item i in
    average_from-hits item.reranked_rank (average tied) (group_from key [] ordered) [] (key item)
      tied item
      (λ k group m x n e.
        let all : group ≡ matching key k ordered = group_from_sound key ordered k group m in
        let (here, of_key) = Among-matching key k ordered x (rw all at n) in
        let k_is : k ≡ key item = of_key ∙ sym (same x here e) in
        ap average (all ∙ ap (λ l. matching key l ordered) k_is))
      (group_from_complete key ordered (key item) (λ empty. absurd (rw empty at j))) j refl

Among-first_item :
    (is_bug : Reranked → Bool) (items : List Reranked) (item : Reranked)
    → first_item is_bug items ≡ some item
    → Among item items
unfolding first_item
Among-first_item is_bug [] item h = absurd (ground arith)
Among-first_item is_bug (x ∷ items) item h = elim (Bool-cases (is_bug x)) [
  | inl e ↦ inl (sym (some-injective x item (rw (first_item, e) at h)))
  | inr e ↦ inr (Among-first_item is_bug items item (rw (first_item, e) at h))
]

report_first-some :
    (is_bug : Reranked → Bool) (n : ℕ) (averages : Dict ℕ Average) (items : List Reranked)
    (item : Reranked) (mean : Average)
    → first_item is_bug items ≡ some item
    → lookup item.reranked_rank averages ≡ some mean
    → report_first is_bug n averages items ≡ some (top mean.0 mean.1, some item)
unfolding report_first first_item
report_first-some is_bug n averages [] item mean h found = absurd (ground arith)
report_first-some is_bug n averages (x ∷ items) item mean h found = elim (Bool-cases (is_bug x)) [
  | inl e ↦
      let same : x ≡ item = some-injective x item (rw (first_item, e) at h) in
      rw (e, ← same, (rw (← same) at found)) refl
  | inr e ↦
      rw e (report_first-some is_bug n averages items item mean (rw (first_item, e) at h) found)
]

-- The first bug item in the order of its ranks is reported, with the average rank of all the
-- items that have its score, where items of the rank of `item` have its score too. No average is
-- missing then.
pub find_reranked_bug_rank-some :
    (D : Decimals) (bug_info : BugInfo) (rankings : List Reranked) (line_window : ℕ)
    (item : Reranked)
    → first_item
        (is_bug_item bug_info (line_set_with_window bug_info.modify_line line_window))
        (sort le_reranked rankings)
      ≡ some item
    → ((other : Reranked)
        → Among other rankings
        → other.reranked_rank ≡ item.reranked_rank
        → score_key D item ≡ score_key D other)
    → find_reranked_bug_rank D bug_info rankings line_window ≡ (
        let tied = tied_with D (sort le_reranked rankings) item in
        some (top (sum_reranked tied) (length tied), some item))
unfolding find_reranked_bug_rank
find_reranked_bug_rank-some D bug_info rankings line_window item h same =
    let ordered = sort le_reranked rankings in
    let is_bug = is_bug_item bug_info (line_set_with_window bug_info.modify_line line_window) in
    report_first-some is_bug (length rankings) (average_ranks D ordered) ordered item
      (average (tied_with D ordered item)) h
      (lookup-average_ranks D ordered item (Among-first_item is_bug ordered item h)
        (λ other i e. same other ((Among-sort le_reranked other rankings).1 i) e))
