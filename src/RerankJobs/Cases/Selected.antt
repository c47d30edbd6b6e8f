-- ===== src/RerankJobs/Cases/Selected.antt =====
-- Which results `select_missing_result_dirs` of rerank_sbfl_with_llm.py selects.
use mathlib.Core.Option.{some-injective}
use ibex.Base.{
  ℕ, ◌≡◌, ◌↔◌, ◌⊎◌, refl, sym, ap, ◌∙◌, inl, inr, Bool, false, Option, none, some, List, [], ◌∷◌,
  ◌++◌, Among, Bool-cases, Option-cases, ◌==◌, arith, if◌then◌else◌,
}
use ibex.Base.Results.{Result, ok, err, >>=-eq-ok}
use ibex.Base.Text.{Text}
use ibex.Base.Dict.{Dict, lookup}
use ibex.Batch.Paths.{name_of}
use ibex.RerankJobs.Cases.{
  JobError, Selection, Key, key_eq, module_from_diff, run_dir_key, index_dirs, select_case,
  select_all, select_missing_result_dirs,
}

lookup-add :
    (key new : Key) (dir : Text) (index : Dict Key Text)
    → lookup new index ≡ none
    → lookup key (index ++ ((new, dir) ∷ [])) ≡ (if key == new then some dir else lookup key index)
unfolding lookup
lookup-add key new dir [] h = refl
lookup-add key new dir ((own, old) ∷ index) h =
    let rest = lookup-add key new dir index in ground (arith, h, rest)

-- A directory that is added is found under its key, and nothing else is.
lookup-added :
    (named : Text → Option Key) (new key : Key) (d dir : Text) (index : Dict Key Text)
    → lookup new index ≡ none
    → named d ≡ some new
    → (lookup key (index ++ ((new, d) ∷ [])) ≡ some dir)
      ↔ ((lookup key index ≡ some dir) ⊎ ((dir ≡ d) × (named dir ≡ some key)))
lookup-added named new key d dir index fresh of_d = elim (Bool-cases (key == new)) [
  | inl e ↦
      let same : key ≡ new = ground (arith, e) in
      (
        λ found.
            let d_is : d ≡ dir =
              some-injective d dir (rw e at (sym (lookup-add key new d index fresh) ∙ found)) in
            inr (sym d_is, ap named (sym d_is) ∙ of_d ∙ ap some (sym same)),
        λ either. elim either [
          | inl found ↦ absurd (lost (sym fresh ∙ ap (λ k. lookup k index) (sym same) ∙ found))
          | inr (is_d, _) ↦ lookup-add key new d index fresh ∙ rw e (ap some (sym is_d))
        ],
      )
  | inr e ↦ (
    λ found. inl (rw e at (sym (lookup-add key new d index fresh) ∙ found)),
    λ either. elim either [
      | inl found ↦ lookup-add key new d index fresh ∙ rw e found
      | inr (is_d, of_dir) ↦
          absurd
            (unequal (sym (some-injective new key (sym of_d ∙ ap named (sym is_d) ∙ of_dir))) e)
    ],
  )
]
  where
    lost : ◌≡◌ {A = Option Text} none (some dir) → ⊥
    lost e = cc

    unequal : key ≡ new → (key == new) ≡ false → ⊥
    unequal p e = ground (arith, e, p)

module _ (is_decimal : ℕ → Bool) where
  abbrev key_of : Text → Option Key
  key_of dir = run_dir_key is_decimal (name_of dir)

  -- The index behind the loop has what it had, and the directories under their keys.
  index_dirs_iff :
      (index : Dict Key Text) (dirs : List Text) (out : Dict Key Text)
      → index_dirs is_decimal index dirs ≡ ok out
      → (key : Key) (dir : Text)
      → (lookup key out ≡ some dir)
        ↔ ((lookup key index ≡ some dir) ⊎ (Among dir dirs × (key_of dir ≡ some key)))
  unfolding index_dirs
  index_dirs_iff index [] out h key dir =
      let same : index ≡ out = cc in
      (λ e. inl (rw same e), λ e. elim e [ inl found ↦ rw (← same) found | inr (i, _) ↦ absurd i ])
  index_dirs_iff index (d ∷ dirs) out h key dir = elim (Option-cases (key_of d)) [
    | inl unnamed ↦
        let (to, from) = index_dirs_iff index dirs out (rw (index_dirs, unnamed) at h) key dir in
        (
          λ e. elim (to e) [ inl found ↦ inl found | inr (i, named) ↦ inr (inr i, named) ],
          λ e. elim e [
            | inl found ↦ from (inl found)
            | inr (inl same, named) ↦ absurd (clash (sym unnamed ∙ ap key_of (sym same) ∙ named))
            | inr (inr i, named) ↦ from (inr (i, named))
          ],
        )
    | inr (new, named) ↦ elim (Option-cases (lookup new index)) [
      | inl fresh ↦
          let (to, from) =
            index_dirs_iff (index ++ ((new, d) ∷ [])) dirs out (rw (index_dirs, named, fresh) at h)
              key dir in
          let (to_added, from_added) = lookup-added key_of new key d dir index fresh named in
          (
            λ e. elim (to e) [
              | inl found ↦ elim (to_added found) [
                | inl old ↦ inl old
                | inr (is_d, of_dir) ↦ inr (inl is_d, of_dir)
              ]
              | inr (i, of_dir) ↦ inr (inr i, of_dir)
            ],
            λ e. elim e [
              | inl found ↦ from (inl (from_added (inl found)))
              | inr (inl is_d, of_dir) ↦ from (inl (from_added (inr (is_d, of_dir))))
              | inr (inr i, of_dir) ↦ from (inr (i, of_dir))
            ],
          )
      | inr (old, taken) ↦ absurd (refused (rw (index_dirs, named, taken) at h))
    ]
  ]
    where
      clash : ◌≡◌ {A = Option Key} none (some key) → ⊥
      clash e = cc

      refused :
          ◌≡◌ {A = Result JobError (Dict Key Text)} (err JobError.duplicate_results) (ok out) → ⊥
      refused e = cc

  -- `selection` is the result of the case: of the directories, one has the bugset and the module
  -- of the case in its name, and it is that one.
  pub record IsOf (dirs : List Text) (case : Key) (selection : Selection) : Type 0 where
    pub module_name : Text
    pub of_diff : module_from_diff case.1 ≡ ok module_name
    pub listed : Among selection.result_dir dirs
    pub only :
        (dir : Text)
        → Among dir dirs
        → key_of dir ≡ some (case.0, module_name)
        → dir ≡ selection.result_dir
    pub matches : key_of selection.result_dir ≡ some (case.0, module_name)
    pub bugset_is : selection.bugset ≡ some case.0
    pub diff_is : selection.diff_name ≡ some case.1

  abbrev pub AreOf : List Text → List Key → List Selection → Type 0
  AreOf dirs [] [] = Unit
  AreOf dirs [] (s ∷ selected) = ⊥
  AreOf dirs (c ∷ cases) [] = ⊥
  AreOf dirs (c ∷ cases) (s ∷ selected) = IsOf dirs c s × AreOf dirs cases selected

  module _ (dirs : List Text) (index : Dict Key Text)
      (indexed : index_dirs is_decimal [] dirs ≡ ok index) where
    found_iff :
        (key : Key) (dir : Text)
        → (lookup key index ≡ some dir) ↔ (Among dir dirs × (key_of dir ≡ some key))
    unfolding lookup
    found_iff key dir =
        let (to, from) = index_dirs_iff [] dirs index indexed key dir in
        (
          λ e. elim (to e) [ inl none_there ↦ absurd (cc) | inr there ↦ there ],
          λ there. from (inr there),
        )

    select_case-IsOf :
        (case : Key) (selection : Selection)
        → select_case index case ≡ ok selection
        → IsOf dirs case selection
    unfolding select_case
    select_case-IsOf (bugset, diff_name) selection h =
        let (module_name, e, h1) = >>=-eq-ok (module_from_diff diff_name) _ h in
        elim (Option-cases (lookup (bugset, module_name) index)) [
          | inl absent ↦ absurd (refused (rw absent at h1))
          | inr (dir, found) ↦
              let same = rw found at h1 in
              let dir_is : dir ≡ selection.result_dir = cc in
              let (listed, matches) = (found_iff (bugset, module_name) dir).0 found in
              record {
                module_name = module_name;
                of_diff = e;
                listed = rw (← dir_is) listed;
                only = λ other i of_other. some-injective other selection.result_dir (
                    sym ((found_iff (bugset, module_name) other).1 (i, of_other))
                    ∙ found
                    ∙ ap some dir_is);
                matches = rw (← dir_is) matches;
                bugset_is = cc;
                diff_is = cc;
              }
        ]
      where
        refused : ◌≡◌ {A = Result JobError Selection} (err JobError.no_result) (ok selection) → ⊥
        refused e = cc

    select_all-AreOf :
        (cases : List Key) (selected : List Selection)
        → select_all index cases ≡ ok selected
        → AreOf dirs cases selected
    unfolding select_all
    select_all-AreOf [] [] h = tt
    select_all-AreOf [] (s ∷ selected) h = absurd (cc)
    select_all-AreOf (c ∷ cases) selected h =
        let (s, e, h1) = >>=-eq-ok (select_case index c) _ h in
        let (rest, e1, h2) = >>=-eq-ok (select_all index cases) _ h1 in
        let same : s ∷ rest ≡ selected = cc in
        rw (← same) (select_case-IsOf c s e, select_all-AreOf cases rest e1)

-- Where results are selected, there is one for each missing case, in their order: the directory
-- that is the only one of those given whose name has the bugset and the module of the case.
pub select_missing_result_dirs-AreOf :
    (is_decimal : ℕ → Bool) (result_dirs : List Text) (missing_cases : List Key)
    (selected : List Selection)
    → select_missing_result_dirs is_decimal result_dirs missing_cases ≡ ok selected
    → AreOf is_decimal result_dirs missing_cases selected
unfolding select_missing_result_dirs
select_missing_result_dirs-AreOf is_decimal result_dirs missing_cases selected h =
    let (index, indexed, h1) = >>=-eq-ok (index_dirs is_decimal [] result_dirs) _ h in
    select_all-AreOf is_decimal result_dirs index indexed missing_cases selected h1
