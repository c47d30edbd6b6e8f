-- ===== src/RerankJobs/Arguments/Split.antt =====
-- Which arguments of rerank_sbfl_with_llm.py go where.
use ibex.Base.{
  ◌≡◌, refl, sym, ap, ◌⊎◌, inl, inr, true, false, Option, none, some, List, [], ◌∷◌, ◌++◌,
  Bool-cases, All, ◌==◌, arith,
}
use ibex.Base.Results.{Result, ok, ◌>>=◌, >>=-eq-ok}
use ibex.Base.Text.{Text, codes, text_eq, starts_with}
use ibex.RerankJobs.Arguments.{
  ArgError, Kind, own, takes_next, forward, kind_of, Split, to_wrapper, to_forwarded, split_loop,
  at_separator, split_front, split_args,
}

-- `both` deals its elements out to two lists, which keep its order.
pub data Deals : List Text → List Text → List Text → Type 0 where
  dealt : Deals [] [] []
  left : {xs ys both : List Text} (x : Text) → Deals xs ys both → Deals (x ∷ xs) ys (x ∷ both)
  right : {xs ys both : List Text} (y : Text) → Deals xs ys both → Deals xs (y ∷ ys) (y ∷ both)

abbrev DealsOut : List Text → Split → Type 0
DealsOut both (wrapper, forwarded) = Deals wrapper forwarded both

module _ (argument : Text) (rest : Result ArgError Split) (values : List Text)
    (split : (s : Split) → rest ≡ ok s → DealsOut values s) where
  to_wrapper-Deals :
      (s : Split) → (rest >>= to_wrapper argument) ≡ ok s → DealsOut (argument ∷ values) s
  to_wrapper-Deals (ws, fs) h =
      let ((ws1, fs1), e, e2) = >>=-eq-ok rest (to_wrapper argument) h in
      let dealt_out = split (ws1, fs1) e in
      let w_eq : argument ∷ ws1 ≡ ws = cc in
      let f_eq : fs1 ≡ fs = cc in rw (← w_eq, ← f_eq) (left argument dealt_out)

  to_forwarded-Deals :
      (s : Split) → (rest >>= to_forwarded argument) ≡ ok s → DealsOut (argument ∷ values) s
  to_forwarded-Deals (ws, fs) h =
      let ((ws1, fs1), e, e2) = >>=-eq-ok rest (to_forwarded argument) h in
      let dealt_out = split (ws1, fs1) e in
      let w_eq : ws1 ≡ ws = cc in
      let f_eq : argument ∷ fs1 ≡ fs = cc in rw (← w_eq, ← f_eq) (right argument dealt_out)

Kind-cases : (k : Kind) → (k ≡ own) ⊎ ((k ≡ takes_next) ⊎ (k ≡ forward))
Kind-cases own = inl refl
Kind-cases takes_next = inr (inl refl)
Kind-cases forward = inr (inr refl)

split_loop-Deals :
    (waiting : Option Text) (values : List Text) (s : Split)
    → split_loop waiting values ≡ ok s
    → DealsOut values s
unfolding split_loop
split_loop-Deals none [] (ws, fs) h =
    let w_eq : [] ≡ ws = cc in let f_eq : [] ≡ fs = cc in rw (← w_eq, ← f_eq) dealt
split_loop-Deals (some option) [] s h = absurd (ground arith)
split_loop-Deals (some option) (value ∷ values) s h =
    to_wrapper-Deals value (split_loop none values) values (split_loop-Deals none values) s h
split_loop-Deals none (argument ∷ values) s h = elim (Kind-cases (kind_of argument)) [
  | inl e ↦
      to_wrapper-Deals argument (split_loop none values) values (split_loop-Deals none values) s
        (rw (split_loop, e) at h)
  | inr (inl e) ↦
      to_wrapper-Deals argument (split_loop (some argument) values) values
        (split_loop-Deals (some argument) values) s (rw (split_loop, e) at h)
  | inr (inr e) ↦
      to_forwarded-Deals argument (split_loop none values) values (split_loop-Deals none values) s
        (rw (split_loop, e) at h)
]

split_front-Deals : (values : List Text) (s : Split) → split_front values ≡ ok s → DealsOut values s
unfolding split_front
split_front-Deals [] s h = split_loop-Deals none [] s h
split_front-Deals (first ∷ values) s h = elim (Bool-cases (starts_with first (codes "-"))) [
  | inl e ↦ split_loop-Deals none (first ∷ values) s (rw (split_front, e) at h)
  | inr e ↦
      to_wrapper-Deals first (split_loop none values) values (split_loop-Deals none values) s
        (rw (split_front, e) at h)
]

-- The command line has no `--` and nothing behind it, or it has one that stands first.
abbrev pub IsCut : List Text → Split → Type 0
IsCut argv (values, passthrough) =
    (All (λ v. (v == codes "--") ≡ false) values)
    × (((argv ≡ values) × (passthrough ≡ [])) ⊎ (argv ≡ values ++ (codes "--" ∷ passthrough)))

at_separator-IsCut : (argv : List Text) → IsCut argv (at_separator argv)
unfolding at_separator
at_separator-IsCut [] = (tt, inl (refl, refl))
at_separator-IsCut (argument ∷ argv) = elim (Bool-cases (argument == codes "--")) [
  | inl e ↦ rw e (tt, inr (ap (λ a. a ∷ argv) (equal argument e)))
  | inr e ↦ let (kept, cut) = at_separator-IsCut argv in rw e ((e, kept), behind cut)
]
  where
    equal : (a : Text) → (a == codes "--") ≡ true → a ≡ codes "--"
    equal a e = ground (arith, e)

    behind :
        (((argv ≡ (at_separator argv).0) × ((at_separator argv).1 ≡ []))
          ⊎ (argv ≡ (at_separator argv).0 ++ (codes "--" ∷ (at_separator argv).1)))
        → (((argument ∷ argv ≡ argument ∷ (at_separator argv).0) × ((at_separator argv).1 ≡ []))
            ⊎ (argument ∷ argv
                ≡ argument ∷ ((at_separator argv).0 ++ (codes "--" ∷ (at_separator argv).1))))
    behind (inl (same, empty)) = inl (ap (◌∷◌ argument) same, empty)
    behind (inr same) = inr (ap (◌∷◌ argument) same)

-- Where the arguments split, those in front of the first `--` are dealt out, in their order, to
-- argparse and to the command that is forwarded, and what stands behind it is forwarded as it is,
-- last.
pub split_args-Deals :
    (argv wrapper forwarded : List Text)
    → split_args argv ≡ ok (wrapper, forwarded)
    → (values : List Text) × (passthrough : List Text) × (front : List Text) × IsCut argv
        (values, passthrough)
      × Deals wrapper front values
      × (forwarded ≡ front ++ passthrough)
unfolding split_args
split_args-Deals argv wrapper forwarded h =
    let (values, passthrough) = at_separator argv in
    let ((ws, fs), e, e2) =
      >>=-eq-ok (split_front values)
        (λ (ws, fs). let out : Result ArgError Split = ok (ws, fs ++ passthrough) in out) h in
    let w_eq : ws ≡ wrapper = cc in
    let f_eq : fs ++ passthrough ≡ forwarded = cc in
    (
      values,
      passthrough,
      fs,
      at_separator-IsCut argv,
      rw (← w_eq) (split_front-Deals values (ws, fs) e),
      sym f_eq,
    )
