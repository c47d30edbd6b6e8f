-- ===== src/Batch/LogParse/Index.antt =====
-- Where the readers of a logged command find what they look for.
use ibex.Base.{
  ℕ, suc, ◌+◌, ◌-◌, ◌≡◌, ◌≢◌, refl, ◌∙◌, ap, Option, none, some, List, [], ◌∷◌, ◌++◌, length, take,
  drop, All, arith, length-append, take-append, append_assoc,
}
use mathlib.Core.List.{reverse, reverse-cons}
use ibex.Base.Text.{Text, codes, text_eq}
use ibex.Base.Dict.{lookup}
use ibex.Batch.LogParse.{
  index, index_from, modes, first_mode, generation_mode, or_length, or_nothing, trailing_args,
}

pub index-append :
    (x : Text) (xs ys : List Text) → All (λ y. y ≢ x) xs → index x (xs ++ x ∷ ys) ≡ some (length xs)
unfolding index
index-append x [] ys _ = ground arith
index-append x (y ∷ xs) ys (differ, rest) = ground (arith, index-append x xs ys rest)

pub index-none : (x : Text) (xs : List Text) → All (λ y. y ≢ x) xs → index x xs ≡ none
unfolding index
index-none x [] _ = refl
index-none x (y ∷ xs) (differ, rest) = ground (arith, index-none x xs rest)

drop-behind : (lead rest : List Text) (x : Text) → drop (length lead + 1) (lead ++ x ∷ rest) ≡ rest
drop-behind lead rest x = rw (one_more (length lead)) (walk lead)
  where
    one_more : (n : ℕ) → n + 1 ≡ suc n
    one_more n = omega arith

    walk : (lead : List Text) → drop (suc (length lead)) (lead ++ x ∷ rest) ≡ rest
    walk [] = refl
    walk (y ∷ lead) = walk lead

take_all : (xs : List Text) → take (length xs) xs ≡ xs
take_all [] = refl
take_all (x ∷ xs) = ap (◌∷◌ x) (take_all xs)

-- Arguments that are no mode are passed over.
pub first_mode-skip :
    (options rest : List Text)
    → All (λ a. lookup a modes ≡ none) options
    → first_mode (reverse options ++ rest) ≡ first_mode rest
unfolding first_mode
first_mode-skip [] rest _ = refl
first_mode-skip (o ∷ options) rest (no_mode, others) =
    rw (reverse-cons o options, append_assoc (reverse options) (o ∷ []) rest)
      (first_mode-skip options (o ∷ rest) others ∙ rw (first_mode, no_mode) refl)

generation_mode-at :
    (argv : List Text) (g : ℕ) (end : Option ℕ)
    → index (codes "generation") argv ≡ some g
    → index_from (codes "--") (g + 1) argv ≡ end
    → generation_mode argv
      ≡ first_mode (reverse (take (or_length end argv - (g + 1)) (drop (g + 1) argv)))
unfolding generation_mode
generation_mode-at argv g end found ends = rw (generation_mode, found, ends) refl

-- The mode is looked for between the subcommand and the simulator's arguments.
pub generation_mode-between :
    (lead middle simulator : List Text)
    → All (λ a. a ≢ codes "generation") lead
    → All (λ a. a ≢ codes "--") middle
    → generation_mode (lead ++ codes "generation" ∷ (middle ++ codes "--" ∷ simulator))
      ≡ first_mode (reverse middle)
unfolding index_from
generation_mode-between lead middle simulator l m =
    let behind = drop-behind lead (middle ++ codes "--" ∷ simulator) (codes "generation") in
    let at = index-append (codes "generation") lead (middle ++ codes "--" ∷ simulator) l in
    let ends = index-append (codes "--") middle simulator m in
    generation_mode-at _ (length lead) (some (length lead + 1 + length middle)) at
      (rw (index_from, behind, ends) refl)
    ∙ rw
        (
          behind,
          difference (length lead) (length middle),
          take-append middle (codes "--" ∷ simulator),
        )
        refl
  where
    difference : (a b : ℕ) → a + 1 + b - (a + 1) ≡ b
    difference a b = omega arith

pub generation_mode-last :
    (lead middle : List Text)
    → All (λ a. a ≢ codes "generation") lead
    → All (λ a. a ≢ codes "--") middle
    → generation_mode (lead ++ codes "generation" ∷ middle) ≡ first_mode (reverse middle)
unfolding index_from
generation_mode-last lead middle l m =
    let behind = drop-behind lead middle (codes "generation") in
    let at = index-append (codes "generation") lead middle l in
    generation_mode-at _ (length lead) none at
      (rw (index_from, behind, index-none (codes "--") middle m) refl)
    ∙ rw
        (
          behind,
          length-append lead (codes "generation" ∷ middle),
          difference (length lead) (length middle),
          take_all middle,
        )
        refl
  where
    difference : (a b : ℕ) → a + suc b - (a + 1) ≡ b
    difference a b = omega arith

pub trailing_args-append :
    (lead simulator : List Text) (fallback : Option (List Text))
    → All (λ a. a ≢ codes "--") lead
    → trailing_args (lead ++ codes "--" ∷ simulator) fallback ≡ simulator
unfolding trailing_args
trailing_args-append lead simulator fallback l =
    rw (trailing_args, index-append (codes "--") lead simulator l)
      (drop-behind lead simulator (codes "--"))

pub trailing_args-none :
    (argv : List Text) (fallback : Option (List Text))
    → All (λ a. a ≢ codes "--") argv
    → trailing_args argv fallback ≡ or_nothing fallback
unfolding trailing_args
trailing_args-none argv fallback l = rw (trailing_args, index-none (codes "--") argv l) refl
