-- ===== src/Conductor/Select/Steps.antt =====
-- The lists by step of conductor.py hold the selected properties of that step.
use ibex.Base.{
  ℕ, zero, suc, ◌+◌, ◌-◌, ◌<◌, ◌≡◌, refl, ◌∙◌, Bool, true, not, Option, none, some, List, [], ◌∷◌,
  ◌++◌, length, length-append, append-nil, append_assoc, contains, nat_eqb, if◌then◌else◌, arith,
  All, Bool-cases, inl, inr,
}
use ibex.Base.Text.{Text, text_eq}
use ibex.Base.Results.{ok, ◌>>=◌, >>=-eq-ok}
use ibex.Conductor.Select.{
  Args, Calls, Selection, skipped_props, extend, grow, append_at, group_names, group_by_step,
  keep_props, select, split_skipped, choose, without_covers, preproc_all, or_raise, value_error,
  max_step, find_props,
}

-- The list of a step, where steps behind the end have none.
unfoldable pub names_at : ℕ → List (List Text) → List Text
names_at step [] = []
names_at zero (names ∷ by_step) = names
names_at (suc step) (names ∷ by_step) = names_at step by_step

-- The names of the properties of a step, in their order.
unfoldable pub of_step : ℕ → List (ℕ × Text) → List Text
of_step k [] = []
of_step k ((step, name) ∷ props) =
    if nat_eqb step k then name ∷ of_step k props else of_step k props

names_at-last :
    (k : ℕ) (by_step : List (List Text)) → names_at k (by_step ++ ([] ∷ [])) ≡ names_at k by_step
unfolding names_at
names_at-last zero [] = refl
names_at-last (suc k) [] = refl
names_at-last zero (names ∷ by_step) = refl
names_at-last (suc k) (names ∷ by_step) = names_at-last k by_step

names_at-extend :
    (k count : ℕ) (by_step : List (List Text))
    → names_at k (extend count by_step) ≡ names_at k by_step
unfolding extend
names_at-extend k zero by_step = refl
names_at-extend k (suc count) by_step =
    names_at-extend k count (by_step ++ ([] ∷ [])) ∙ names_at-last k by_step

length-extend :
    (count : ℕ) (by_step : List (List Text))
    → length (extend count by_step) ≡ length by_step + count
unfolding extend
length-extend zero by_step = omega arith
length-extend (suc count) by_step =
    omega (arith, length-extend count (by_step ++ ([] ∷ [])), length-append by_step ([] ∷ []))

names_at-append_at :
    (k step : ℕ) (name : Text) (by_step : List (List Text))
    → step < length by_step
    → names_at k (append_at step name by_step)
      ≡ (if nat_eqb step k then names_at k by_step ++ (name ∷ []) else names_at k by_step)
unfolding names_at append_at
names_at-append_at k step name [] h = absurd (omega arith)
names_at-append_at zero zero name (names ∷ by_step) h = refl
names_at-append_at zero (suc step) name (names ∷ by_step) h = ground arith
names_at-append_at (suc k) zero name (names ∷ by_step) h = ground arith
names_at-append_at (suc k) (suc step) name (names ∷ by_step) h =
    ground (arith, names_at-append_at k step name by_step)

names_at-group_names :
    (k : ℕ) (names : List (ℕ × Text)) (by_step : List (List Text))
    → names_at k (group_names names by_step) ≡ names_at k by_step ++ of_step k names
unfolding group_names of_step
names_at-group_names k [] by_step = rw (append-nil (names_at k by_step)) refl
names_at-group_names k ((step, name) ∷ names) by_step =
    rw
      (
        names_at-group_names k names (append_at step name (grow step by_step)),
        names_at-append_at k step name (grow step by_step) in_range,
        names_at-extend k (suc step - length by_step) by_step,
      )
      (elim (Bool-cases (nat_eqb step k)) [
        | inl e ↦ rw e (append_assoc (names_at k by_step) (name ∷ []) (of_step k names))
        | inr e ↦ rw e refl
      ])
  where
    in_range : step < length (grow step by_step)
    in_range = omega (arith, length-extend (suc step - length by_step) by_step)

-- Each list of `group_by_step` holds the names of its step, in the order in which they are given.
pub group_by_step-names :
    (k : ℕ) (names : List (ℕ × Text)) (last : Option ℕ)
    → names_at k (group_by_step names last) ≡ of_step k names
unfolding group_by_step names_at
group_by_step-names k names none = names_at-group_names k names []
group_by_step-names k names (some last) =
    names_at-extend k (suc last - length (group_names names [])) (group_names names [])
    ∙ names_at-group_names k names []

keep_props-All :
    (test : Text → Bool) (props : List (ℕ × Text))
    → All (λ p. test (p.1) ≡ true) (keep_props test props)
unfolding keep_props
keep_props-All test [] = tt
keep_props-All test ((step, p) ∷ props) = elim (Bool-cases (test p)) [
  | inl e ↦ rw e (e, keep_props-All test props)
  | inr e ↦ rw e (keep_props-All test props)
]

abbrev pub IsSplit : Selection → Type 0
IsSplit selection =
    All (λ p. not (contains skipped_props (p.1)) ≡ true) selection.props
    × ((k : ℕ) → names_at k selection.by_step ≡ of_step k selection.props)

split_skipped-IsSplit : (top : ℕ) (props : List (ℕ × Text)) → IsSplit (split_skipped top props)
unfolding split_skipped
split_skipped-IsSplit top props = (
  keep_props-All (λ p. not (contains skipped_props p)) props,
  λ k. group_by_step-names k _ (some top),
)

-- Where `main` gets to a mode, no property of it is skipped, and the list of each step holds the
-- properties of the step in their order.
pub select-IsSplit :
    (args : Args) (calls : Calls) (asserts : List Text) (selection : Selection)
    → select args calls asserts ≡ ok selection
    → IsSplit selection
unfolding select
select-IsSplit args calls asserts selection e =
    let (all_names, _, e1) =
      >>=-eq-ok (preproc_all calls asserts)
        (λ all_names. or_raise value_error (max_step all_names) >>= λ top.
          find_props (without_covers all_names) args.properties >>= λ found.
          ok (split_skipped top (choose args calls (without_covers all_names) found)))
        e in
    let (top, _, e2) =
      >>=-eq-ok (or_raise value_error (max_step all_names))
        (λ top. find_props (without_covers all_names) args.properties >>= λ found.
          ok (split_skipped top (choose args calls (without_covers all_names) found)))
        e1 in
    let (found, _, e3) =
      >>=-eq-ok (find_props (without_covers all_names) args.properties)
        (λ found. ok (split_skipped top (choose args calls (without_covers all_names) found))) e2 in
    let same : split_skipped top (choose args calls (without_covers all_names) found) ≡ selection =
      cc in
    rw (← same) (split_skipped-IsSplit top (choose args calls (without_covers all_names) found))
