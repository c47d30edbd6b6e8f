-- ===== src/Base/Grouping.antt =====
-- Dicts of lists, to which Python code appends by key.
use Prim.Native.Nat.{ℕ, ◌+◌}
use mathlib.Core.Path.{◌≡◌, refl, sym, ap, ◌∙◌}
use mathlib.Core.Logic.{◌≢◌}
use mathlib.Core.Logic.{inl, inr}
use mathlib.Core.List.{List, [], ◌∷◌, ◌++◌, append-nil, append_assoc}
use mathlib.Core.Bool.{true, false}
use native.Mathlib.Omega.{arith}
use ibex.Base.Tests.{if◌then◌else◌, Bool-cases}
use ibex.Base.Equality.{Eq, ◌==◌}
use ibex.Base.Lists.{All, All-append, Among}
use ibex.Base.Dict.{Dict}

module _ {ℓ κ} {K : Type ℓ} {V : Type κ} ⦃e : Eq K⦄ where
  -- `d[key].append(value)`, where a key that is missing stands for an empty list.
  unfoldable pub append_to : K → V → Dict K (List V) → Dict K (List V)
  append_to key value [] = (key, value ∷ []) ∷ []
  append_to key value ((own, values) ∷ items) =
      if key == own
      then (own, values ++ (value ∷ [])) ∷ items
      else (own, values) ∷ append_to key value items

  -- A measure of lists that `append` adds up, summed over the dict.
  unfoldable pub dict_sum : (List V → ℕ) → Dict K (List V) → ℕ
  dict_sum measure [] = 0
  dict_sum measure ((_, values) ∷ items) = measure values + dict_sum measure items

  pub dict_sum-append_to :
      (measure : List V → ℕ) (extra : ℕ) (key : K) (value : V)
      → ((values : List V) → measure (values ++ (value ∷ [])) ≡ measure values + extra)
      → (d : Dict K (List V)) → measure (value ∷ []) ≡ extra
      → dict_sum measure (append_to key value d) ≡ dict_sum measure d + extra
  unfolding append_to dict_sum
  dict_sum-append_to measure extra key value adds [] one = omega (arith, one)
  dict_sum-append_to measure extra key value adds ((own, values) ∷ d) one =
      elim (Bool-cases (key == own)) [
        | inl e ↦ rw e (omega (arith, adds values))
        | inr e ↦ rw e (omega (arith, dict_sum-append_to measure extra key value adds d one))
      ]

  pub All-append_to {μ} :
      (P : V → Type μ) (key : K) (value : V) (d : Dict K (List V))
      → P value
      → All (λ (_, values). All P values) d
      → All (λ (_, values). All P values) (append_to key value d)
  unfolding append_to
  All-append_to P key value [] h _ = ((h, tt), tt)
  All-append_to P key value ((own, values) ∷ d) h (old, rest) = elim (Bool-cases (key == own)) [
    | inl e ↦ rw e (All-append P values (value ∷ []) old (h, tt), rest)
    | inr e ↦ rw e (old, All-append_to P key value d h rest)
  ]

append-some {κ} : {V : Type κ} (values : List V) (x : V) → values ++ (x ∷ []) ≢ []
append-some [] x p = cc
append-some (v ∷ values) x p = cc

module _ {K : Type 0} {V : Type 0} ⦃e : Eq K⦄ where
  -- The values of a key, in the order in which they came.
  unfoldable pub matching : (V → K) → K → List V → List V
  matching key k [] = []
  matching key k (x ∷ xs) = if k == key x then x ∷ matching key k xs else matching key k xs

  -- `for x in xs: groups[key(x)].append(x)`
  unfoldable pub group_from : (V → K) → Dict K (List V) → List V → Dict K (List V)
  unfolding append_to
  group_from key groups [] = groups
  group_from key groups (x ∷ xs) = group_from key (append_to (key x) x groups) xs

  -- `groups[k]` of a defaultdict(list).
  unfoldable pub get : K → Dict K (List V) → List V
  get k [] = []
  get k ((own, values) ∷ groups) = if k == own then values else get k groups

  -- No key stands twice, and no list is empty.
  unfoldable pub IsGrouped : Dict K (List V) → Type 0
  unfolding get
  IsGrouped [] = Unit
  IsGrouped ((own, values) ∷ groups) = (values ≢ []) × (get own groups ≡ []) × IsGrouped groups

  get-append_to :
      (k own : K) (x : V) (groups : Dict K (List V))
      → get k (append_to own x groups)
        ≡ (if k == own then get k groups ++ (x ∷ []) else get k groups)
  unfolding get append_to
  get-append_to k own x [] = refl
  get-append_to k own x ((i, values) ∷ groups) = ground (arith, get-append_to k own x groups)

  append_to-IsGrouped :
      (own : K) (x : V) (groups : Dict K (List V))
      → IsGrouped groups
      → IsGrouped (append_to own x groups)
  unfolding append_to IsGrouped
  append_to-IsGrouped own x [] _ = ((λ p. cc), refl, tt)
  append_to-IsGrouped own x ((i, values) ∷ groups) (some_values, alone, rest) =
      elim (Bool-cases (own == i)) [
        | inl p ↦ rw p (append-some values x, alone, rest)
        | inr p ↦ rw p (some_values, other p ∙ alone, append_to-IsGrouped own x groups rest)
      ]
    where
      other : (own == i) ≡ false → get i (append_to own x groups) ≡ get i groups
      other p = ground (arith, get-append_to i own x groups)

  get-group_from :
      (key : V → K) (k : K) (groups : Dict K (List V)) (xs : List V)
      → get k (group_from key groups xs) ≡ get k groups ++ matching key k xs
  unfolding group_from matching
  get-group_from key k groups [] = sym (append-nil (get k groups))
  get-group_from key k groups (x ∷ xs) =
      get-group_from key k (append_to (key x) x groups) xs ∙ elim (Bool-cases (k == key x)) [
        | inl p ↦
            rw (get-append_to k (key x) x groups, p)
              (append_assoc (get k groups) (x ∷ []) (matching key k xs))
        | inr p ↦ rw (get-append_to k (key x) x groups, p) refl
      ]

  group_from-IsGrouped :
      (key : V → K) (groups : Dict K (List V)) (xs : List V)
      → IsGrouped groups
      → IsGrouped (group_from key groups xs)
  unfolding group_from
  group_from-IsGrouped key groups [] h = h
  group_from-IsGrouped key groups (x ∷ xs) h =
      group_from-IsGrouped key (append_to (key x) x groups) xs
        (append_to-IsGrouped (key x) x groups h)

  get-some :
      (k : K) (values : List V) (groups : Dict K (List V))
      → get k groups ≡ values
      → values ≢ []
      → Among (k, values) groups
  unfolding get
  get-some k values [] h named = absurd (named (sym h))
  get-some k values ((own, others) ∷ groups) h named = elim (Bool-cases (k == own)) [
    | inl p ↦ inl (same p (rw (get, p) at h))
    | inr p ↦ inr (get-some k values groups (rw (get, p) at h) named)
  ]
    where
      same : (k == own) ≡ true → others ≡ values → ◌≡◌ {A = K × List V} (k, values) (own, others)
      same p q = let r : k ≡ own = ground arith in cc

  Among-get :
      (k : K) (values : List V) (groups : Dict K (List V))
      → IsGrouped groups
      → Among (k, values) groups
      → (get k groups ≡ values) × (values ≢ [])
  unfolding get IsGrouped
  Among-get k values [] _ i = absurd i
  Among-get k values ((own, others) ∷ groups) (some_values, alone, rest) (inl p) =
      let key : k ≡ own = ap (λ e. e.0) p in
      let value : values ≡ others = ap (λ e. e.1) p in
      elim (Bool-cases (k == own)) [
        | inl same ↦ rw (get, same) (sym value, λ empty. some_values (sym value ∙ empty))
        | inr differ ↦ absurd (apart key differ)
      ]
    where
      apart : k ≡ own → (k == own) ≡ false → ⊥
      apart key differ = ground arith
  Among-get k values ((own, others) ∷ groups) (some_values, alone, rest) (inr i) =
      let (found, named) = Among-get k values groups rest i in
      elim (Bool-cases (k == own)) [
        | inl same ↦ absurd (named (sym found ∙ ap (λ j. get j groups) (equal same) ∙ alone))
        | inr differ ↦ rw (get, differ) (found, named)
      ]
    where
      equal : (k == own) ≡ true → k ≡ own
      equal same = ground arith

  -- `groups` behind the loop over `xs`: each list that it holds is what matches its key.
  pub group_from_sound :
      (key : V → K) (xs : List V) (k : K) (values : List V)
      → Among (k, values) (group_from key [] xs)
      → values ≡ matching key k xs
  unfolding matching get IsGrouped
  group_from_sound key xs k values i =
      sym ((Among-get k values (group_from key [] xs) (group_from-IsGrouped key [] xs tt) i).0)
      ∙ get-group_from key k [] xs

  -- And it holds what matches a key, where something does.
  pub group_from_complete :
      (key : V → K) (xs : List V) (k : K)
      → matching key k xs ≢ []
      → Among (k, matching key k xs) (group_from key [] xs)
  unfolding matching get
  group_from_complete key xs k named =
      get-some k (matching key k xs) (group_from key [] xs) (get-group_from key k [] xs) named
