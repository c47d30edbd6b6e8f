-- ===== src/Batch/Sweep/Grid.antt =====
-- The points of a sweep: each combination, and which numbers are read.
use mathlib.Core.List.{flat_map}
use mathlib.Core.Path.{subst}
use ibex.Base.{
  ℕ, ◌≡◌, ◌↔◌, refl, ◌⊎◌, inl, inr, sym, true, false, List, [], ◌∷◌, ◌++◌, map, arith, All,
  contains, nat_eq, Bool-cases, Option-cases, none,
}
use ibex.Base.Results.{Result, ok, err, ◌>>◌, >>=-eq-ok}
use ibex.Base.Text.{Text}
use ibex.Batch.Sweep.{
  SweepConfig, SweepPoint, SweepError, points, not_positive, first_duplicate, read_positive,
  reject_numbers, positive_ints, is_positive_text, int_of_digits,
}

abbrev pub In : {A : Type 0} → A → List A → Type 0
In a [] = ⊥
In a (x ∷ xs) = (a ≡ x) ⊎ In a xs

In-append : {A : Type 0} (a : A) (xs ys : List A) → In a (xs ++ ys) ↔ (In a xs ⊎ In a ys)
In-append a [] ys = (λ h. inr h, λ h. ground arith)
In-append a (x ∷ xs) ys = ground (arith, In-append a xs ys)

In-flat_map :
    {A B : Type 0} (f : A → List B) (b : B) (xs : List A)
    → In b (flat_map f xs) ↔ ((a : A) × (In a xs) × (In b (f a)))
unfolding flat_map
In-flat_map f b [] = (λ h. absurd h, λ (a, h, _). h)
In-flat_map f b (x ∷ xs) = (
  λ h. elim ((In-append b (f x) (flat_map f xs)).0 h) [
    | inl here ↦ (x, inl refl, here)
    | inr there ↦ let (a, at, in_f) = (In-flat_map f b xs).0 there in (a, inr at, in_f)
  ],
  λ (a, at, in_f). elim at [
    | inl same ↦ (In-append b (f x) (flat_map f xs)).1 (inl (subst (λ y. In b (f y)) same in_f))
    | inr later ↦
        (In-append b (f x) (flat_map f xs)).1 (inr ((In-flat_map f b xs).1 (a, later, in_f)))
  ],
)

In-map :
    {A B : Type 0} (f : A → B) (b : B) (xs : List A)
    → In b (map f xs) ↔ ((a : A) × (In a xs) × (b ≡ f a))
In-map f b [] = (λ h. absurd h, λ (a, h, _). h)
In-map f b (x ∷ xs) = (
  λ h. elim h [
    | inl here ↦ (x, inl refl, here)
    | inr there ↦ let (a, at, is) = (In-map f b xs).0 there in (a, inr at, is)
  ],
  λ (a, at, is). elim at [
    | inl same ↦ inl (subst (λ y. b ≡ f y) same is)
    | inr later ↦ inr ((In-map f b xs).1 (a, later, is))
  ],
)

abbrev at : ℕ → Text → ℕ → SweepPoint
at t s w = record { top_pass = t; weight_strategy = s; window_size = w }

-- A sweep has exactly the combinations of its top passes, strategies and window sizes.
In-points :
    (config : SweepConfig) (point : SweepPoint)
    → In point (points config) ↔ (
        In point.top_pass config.top_passes
        × In point.weight_strategy config.weight_strategies
        × In point.window_size config.window_sizes)
unfolding points
In-points config point =
    let strategies = λ (t : ℕ) (s : Text). map (λ (w : ℕ). at t s w) config.window_sizes in
    let windows = λ (t : ℕ). flat_map (strategies t) config.weight_strategies in
    (
      λ h.
          let (t, in_t, rest) = (In-flat_map windows point config.top_passes).0 h in
          let (s, in_s, rest') =
            (In-flat_map (strategies t) point config.weight_strategies).0 rest in
          let (w, in_w, is) = (In-map (at t s) point config.window_sizes).0 rest' in
          (
            subst (λ q. In q.top_pass config.top_passes) (sym is) in_t,
            subst (λ q. In q.weight_strategy config.weight_strategies) (sym is) in_s,
            subst (λ q. In q.window_size config.window_sizes) (sym is) in_w,
          ),
      λ (in_t, in_s, in_w). (In-flat_map windows point config.top_passes).1 (
        point.top_pass,
        in_t,
        (In-flat_map (strategies point.top_pass) point config.weight_strategies).1 (
          point.weight_strategy,
          in_s,
          (In-map (at point.top_pass point.weight_strategy) point config.window_sizes).1
              (point.window_size, in_w, refl),
        ),
      ),
    )

-- No value of the list is one that was seen, and none occurs twice.
abbrev pub IsFresh : List ℕ → List ℕ → Type 0
IsFresh seen [] = Unit
IsFresh seen (x ∷ xs) = (contains seen x ≡ false) × IsFresh (x ∷ seen) xs

first_duplicate-none : (seen xs : List ℕ) → first_duplicate seen xs ≡ none → IsFresh seen xs
unfolding first_duplicate
first_duplicate-none seen [] h = tt
first_duplicate-none seen (x ∷ xs) h = ground (arith, first_duplicate-none (x ∷ seen) xs)

refused :
    (r : Result SweepError (List ℕ)) (ns : List ℕ) {e : SweepError} → r ≡ ok ns → r ≡ err e → ⊥
refused r ns h g = cc

kept_lem :
    (name : Text) (ms ns : List ℕ)
    → (reject_numbers name ms >> ok ms) ≡ ok ns
    → IsFresh [] ms × (ms ≡ ns)
unfolding reject_numbers
kept_lem name ms ns h = elim (Option-cases (first_duplicate [] ms)) [
  | inl clear ↦ (first_duplicate-none [] ms clear, ground (arith, clear))
  | inr (n, twice) ↦ absurd (ground (arith, twice))
]

read_positive-ok :
    (name : Text) (values : List Text) (ns : List ℕ)
    → read_positive name values ≡ ok ns
    → All (λ v. is_positive_text v ≡ true) values × (ns ≡ map (int_of_digits 0) values)
unfolding read_positive
read_positive-ok name [] ns h = (tt, ground arith)
read_positive-ok name (v ∷ values) ns h = elim (Bool-cases (is_positive_text v)) [
  | inr bad ↦ absurd (
      refused (read_positive name (v ∷ values)) ns {e = not_positive name v} h
        (rw (read_positive, bad) refl))
  | inl good ↦
      let (rest, read, all) =
        >>=-eq-ok (read_positive name values) (λ (r : List ℕ). ok (int_of_digits 0 v ∷ r))
          (rw (read_positive, good) at h) in
      let (goods, is) = read_positive-ok name values rest read in
      ((good, goods), ground (arith, is, all))
]

-- The numbers that are read are the values of the texts, every text is a positive number, and no
-- number occurs twice.
pub positive_ints-ok :
    (name : Text) (values : List Text) (ns : List ℕ)
    → positive_ints name values ≡ ok ns
    → All (λ v. is_positive_text v ≡ true) values
      × (ns ≡ map (int_of_digits 0) values)
      × IsFresh [] ns
unfolding positive_ints reject_numbers
positive_ints-ok name values ns h =
    let (ms, read, kept) =
      >>=-eq-ok (read_positive name values) (λ result. reject_numbers name result >> ok result) h in
    let (goods, is) = read_positive-ok name values ms read in
    let (fresh, same) = kept_lem name ms ns kept in
    (goods, ground (arith, same, is), rw (sym same) fresh)
