-- ===== src/Conductor/Prove/Complete.antt =====
-- What the exit code of `prove_mode` of conductor.py says.
use ibex.Base.{
  Among, All-Among, All-each, ◌*◌, ◌/◌, ℕ, ◌≡◌, refl, inl, inr, true, false, List, [], ◌∷◌,
  contains, is_empty, if◌then◌else◌, All, arith, Bool-cases,
}
use ibex.Base.Results.{Result, ok, ◌>>=◌, >>=-eq-ok}
use ibex.Base.Sorting.{sort, All-sort}
use ibex.Base.Text.{Text, text_eq}
use ibex.Conductor.{ProcessResult}
use ibex.Conductor.Strategy.{Strategy, done_props, difference}
use ibex.Conductor.Strategy.File.{contains-difference, contains-append}
use ibex.Conductor.Prove.{
  ProveError, Args, Calls, is_longer, is_unsat, conf_of, conf_all, gather, run_strategy,
  all_strategies, names_of, uncovered, has_errors, conclude, prove_mode,
}
use ibex.Conductor.Prove.Loaded.{IsLoaded, all_strategies-IsLoaded}

-- The proof of the step ran, with some configuration and memory, and its exit code is 20.
abbrev pub IsProven : Calls → Strategy → Type 0
IsProven calls s =
    (conf : Text) × (memory : ℕ) × (result : ProcessResult) × (calls.prove conf s.step s.props
        memory
      ≡ ok result)
    × (is_unsat result.code ≡ true)

no_error-cases :
    (result : ProcessResult) (s : Strategy) (results : List (ProcessResult × Strategy))
    → has_errors ((result, s) ∷ results) ≡ false
    → (is_unsat result.code ≡ true) × (has_errors results ≡ false)
unfolding has_errors
no_error-cases result s results h = ground arith

gather-IsProven :
    (calls : Calls) (steps : List Strategy) (confs : List (Text × Strategy))
    (results : List (ProcessResult × Strategy))
    → conf_all calls steps ≡ ok confs
    → gather calls confs ≡ ok results
    → has_errors results ≡ false
    → All (IsProven calls) steps
unfolding conf_all gather has_errors
gather-IsProven calls [] confs results e1 e2 e3 = tt
gather-IsProven calls (s ∷ steps) confs results e1 e2 e3 =
    let (conf, _, behind) =
      >>=-eq-ok (conf_of calls s) (λ conf. conf_all calls steps >>= λ confs. ok ((conf, s) ∷ confs))
        e1 in
    let (rest, e_rest, e_all) =
      >>=-eq-ok (conf_all calls steps) (λ confs. ok ((conf, s) ∷ confs)) behind in
    let confs_eq : confs ≡ (conf, s) ∷ rest = cc in
    let ran : gather calls ((conf, s) ∷ rest) ≡ ok results = rw confs_eq at e2 in
    let (result, e_result, behind2) =
      >>=-eq-ok (calls.prove conf s.step s.props (s.procres.max_mem * 11 / 10))
        (λ result. gather calls rest >>= λ more. ok ((result, s) ∷ more)) ran in
    let (more, e_more, e_results) =
      >>=-eq-ok (gather calls rest) (λ more. ok ((result, s) ∷ more)) behind2 in
    let results_eq : results ≡ (result, s) ∷ more = cc in
    let (unsat, fine) = no_error-cases result s more (rw results_eq at e3) in
    ((conf, _, result, e_result, unsat), gather-IsProven calls steps rest more e_rest e_more fine)

-- A name among the properties of the strategies stands in one of them.
covered-Among :
    (strategies : List Strategy) (name : Text)
    → contains (done_props strategies) name ≡ true
    → (s : Strategy) × Among s strategies × (contains s.props name ≡ true)
unfolding done_props
covered-Among [] name h = cc
covered-Among (s ∷ strategies) name h = elim (Bool-cases (contains s.props name)) [
  | inl e ↦ (s, inl refl, e)
  | inr e ↦
      let (t, i, f) =
        covered-Among strategies name
          (rw (contains-append s.props (done_props strategies) name, e) at h) in
      (t, inr i, f)
]

nothing-contains : (xs : List Text) (x : Text) → is_empty xs ≡ true → contains xs x ≡ false
nothing-contains [] x h = refl
nothing-contains (y ∷ xs) x h = cc

names_of-contains :
    (props : List (ℕ × Text)) (p : ℕ × Text)
    → Among p props
    → contains (names_of props) (p.1) ≡ true
unfolding names_of
names_of-contains [] p i = absurd i
names_of-contains ((_, name) ∷ props) p (inl e) = ground arith
names_of-contains ((_, name) ∷ props) p (inr i) = ground (arith, names_of-contains props p i)

uncovered-none :
    (props : List (ℕ × Text)) (strategies : List Strategy) (p : ℕ × Text)
    → is_empty (uncovered props strategies) ≡ true
    → Among p props
    → contains (done_props strategies) (p.1) ≡ true
unfolding uncovered
uncovered-none props strategies p none_left i = ground (
  arith,
  contains-difference (names_of props) (done_props strategies) (p.1),
  nothing-contains (difference (names_of props) (done_props strategies)) (p.1) none_left,
  names_of-contains props p i,
)

conclude-zero :
    (args : Args) (calls : Calls) (all_props : List (ℕ × Text)) (strategies : List Strategy)
    → args.by_step ≡ false
    → args.check_complete ≡ true
    → conclude args calls all_props strategies ≡ ok 0
    → (is_empty (uncovered all_props strategies) ≡ true) × All (IsProven calls) strategies
unfolding conclude run_strategy
conclude-zero args calls all_props strategies together complete e =
    elim (Bool-cases (is_empty (uncovered all_props strategies))) [
      | inr some_left ↦ absurd (exits (rw (conclude, complete, some_left) at e))
      | inl none_left ↦
          let (results, e1, e2) =
            >>=-eq-ok (run_strategy calls strategies)
              (λ results. ok (if has_errors results then 1 else 0))
              (rw (conclude, complete, none_left, together) at e) in
          let (confs, e3, e4) =
            >>=-eq-ok (conf_all calls (sort is_longer strategies)) (gather calls) e1 in
          (
            none_left,
            All-sort is_longer (IsProven calls) strategies (
                gather-IsProven calls (sort is_longer strategies) confs results e3 e4
                  (no_errors results e2)),
          )
    ]
  where
    exits : ◌≡◌ {A = Result ProveError ℕ} (ok 1) (ok 0) → ⊥
    exits h = cc

    no_errors :
        (results : List (ProcessResult × Strategy))
        → ◌≡◌ {A = Result ProveError ℕ} (ok (if has_errors results then 1 else 0)) (ok 0)
        → has_errors results ≡ false
    no_errors results h = ground arith

-- Where --check-complete is given and --by-step is not, exit code 0 of the mode `prove` says that
-- the name of each property stands in a proof step of a strategy file from --start on, and that
-- this step was proven with exit code 20.
pub prove_mode-zero :
    (args : Args) (calls : Calls) (all_props : List (ℕ × Text)) (by_step : List (List Text))
    → args.by_step ≡ false
    → args.check_complete ≡ true
    → prove_mode args calls all_props by_step ≡ ok 0
    → All
        (λ p.
          (s : Strategy) × (contains s.props (p.1) ≡ true)
          × IsLoaded args calls s
          × IsProven calls s)
        all_props
unfolding prove_mode
prove_mode-zero args calls all_props by_step together complete e =
    let (strategies, e1, e2) =
      >>=-eq-ok (all_strategies args calls 0 by_step) (conclude args calls all_props) e in
    let (none_left, proven) = conclude-zero args calls all_props strategies together complete e2 in
    let loaded = all_strategies-IsLoaded args calls 0 by_step strategies together e1 in
    All-each _ all_props λ p i.
      let (s, s_in, named) =
        covered-Among strategies (p.1) (uncovered-none all_props strategies p none_left i) in
      (
        s,
        named,
        All-Among (IsLoaded args calls) strategies s loaded s_in,
        All-Among (IsProven calls) strategies s proven s_in,
      )
