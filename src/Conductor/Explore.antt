-- ===== src/Conductor/Explore.antt =====
-- The search for proofs in conductor.py: `race`, `explore`, `build_strategy_rec`,
-- `construct_strategy` and `explore_mode`.
pub mod Twice
pub mod Hard
use ibex.Base.{
  ℕ, suc, Bool, true, false, not, Option, none, some, List, [], ◌∷◌, ◌++◌, map, length, is_empty,
  ltb, nat_eqb, if◌then◌else◌,
}
use ibex.Base.Int.{ℤ, pos}
use ibex.Base.Results.{Result, err, ok, ◌>>=◌}
use ibex.Base.Text.{Text, codes}
use ibex.Conductor.{ProcessResult}
use ibex.Conductor.Prove.{ProveError, is_unsat}
use ibex.Conductor.Split.{SplitError, PropTree, nil, prop, tree, split_by_prefixes, find_all}
use ibex.Conductor.Strategy.{Strategy, missing_from}

-- An exception: a failed assertion, a coroutine that is awaited again, or that of a callee.
pub data ExploreError : Type 0 where
  assertion_error awaited_twice : ExploreError
  of_split : SplitError → ExploreError
  of_prove : ProveError → ExploreError

-- What the search calls: whether aig-manip prepared the file, and an engine on it.
pub record Engines : Type 0 where
  pub prepare_aiger : ℕ → List Text → Bool
  pub shell : Text → ℕ → List Text → ProcessResult

-- `race`. Each of its wrappers awaits `task`, the variable of the loop over the tasks, which is
-- the last task when they run. One wrapper returns what it came to; the second one of more
-- wrappers raises, since a coroutine cannot be awaited twice, and so does the group.
unfoldable pub race :
    {A : Type 0} → List (Result ExploreError (Option A)) → Result ExploreError (Option A)
race [] = ok none
race (task ∷ []) = task
race (task ∷ next ∷ tasks) = err awaited_twice

-- `result.code in {10, 20}`
abbrev pub is_decided : Option ℤ → Bool
is_decided (some (pos n)) = if nat_eqb n 10 then true else nat_eqb n 20
is_decided _ = false

-- ENGINES. The second engine of the list is what is left of it where the task is difficult.
abbrev pub kind_engine : Text
kind_engine = codes "rIC3 -e kind --no-preproc"

unfoldable pub engines_of : Bool → List Text
engines_of difficult = if difficult then kind_engine ∷ [] else codes "rIC3" ∷ kind_engine ∷ []

-- A strategy, and the properties that `failures` is extended by.
abbrev pub Found : Type 0
Found = List Strategy × List Text

module _ (engines : Engines) (difficult : Bool) (step : ℕ) where
  unfoldable pub explore_one :
      List Text → Text → Result ExploreError (Option (Text × ProcessResult))
  explore_one props engine_config =
      let result = engines.shell engine_config step props in
      ok (if is_decided result.code then some (engine_config, result) else none)

  unfoldable pub explore : List Text → Result ExploreError (Option (Text × ProcessResult))
  unfolding race explore_one engines_of
  explore props =
      if engines.prepare_aiger step props
      then race (map (explore_one props) (engines_of difficult))
      else err assertion_error

  abbrev pub strategy_of : List Text → Text × ProcessResult → Strategy
  strategy_of props (config, procres) = record {
    step = step;
    props = props;
    config = config;
    procres = procres;
  }

  -- The branch for one property.
  abbrev pub of_one : Text → Option (Text × ProcessResult) → Found
  of_one name none = ([], name ∷ [])
  of_one name (some res) = elim (is_unsat res.1.code) [
    | true ↦ (strategy_of (name ∷ []) res ∷ [], [])
    | false ↦ ([], [])
  ]

  unfoldable pub build_one : Text → Result ExploreError Found
  unfolding explore
  build_one name = explore (name ∷ []) >>= λ res. ok (of_one name res)

  abbrev of_block : List Text → Option (Text × ProcessResult) → Option Found
  of_block props none = none
  of_block props (some res) = elim (is_unsat res.1.code) [
    | true ↦ some (strategy_of props res ∷ [], [])
    | false ↦ none
  ]

  unfoldable pub without_split : List Text → Result ExploreError (Option Found)
  unfolding explore
  without_split props = explore props >>= λ res. ok (of_block props res)

  -- `asyncio.gather` of recursive calls, flattened.
  unfoldable pub gather : List (Result ExploreError Found) → Result ExploreError Found
  gather [] = ok ([], [])
  gather (solution ∷ solutions) = solution >>= (λ (strategy, failures).
      gather solutions >>= (λ (rest, others). ok (strategy ++ rest, failures ++ others)))

  abbrev some_found : Found → Option Found
  some_found found = some found

  abbrev winner_of : Option Found → Result ExploreError Found
  winner_of none = err assertion_error
  winner_of (some winner) = ok winner

  -- The end of `build_strategy_rec`, from the task that splits.
  unfoldable pub race_split : List Text → Result ExploreError Found → Result ExploreError Found
  unfolding race without_split
  race_split props solutions =
      race (without_split props ∷ (solutions >>= (λ found. ok (some_found found))) ∷ [])
      >>= winner_of

  -- `build_strategy_rec` of a list of names.
  unfoldable pub build_names : List Text → Result ExploreError Found
  unfolding build_one race_split gather
  build_names [] = ok ([], [])
  build_names (name ∷ []) = build_one name
  build_names (name ∷ next ∷ names) =
      race_split (name ∷ next ∷ names) (gather (map build_one (name ∷ next ∷ names)))

  -- The names in a tree that stand in no list of it, `rest`.
  unfoldable pub own_names : PropTree → List Text
  own_names nil = []
  own_names (prop name rest) = name ∷ own_names rest
  own_names (tree sub rest) = own_names rest

  -- `with_split`, from the solutions of the lists in a tree.
  unfoldable pub with_split :
      PropTree → List (Result ExploreError Found) → Result ExploreError Found
  unfolding own_names build_one build_names gather
  with_split prop_tree [] = gather (map build_one (own_names prop_tree))
  with_split prop_tree (child ∷ children) =
      gather ((child ∷ children) ++ (build_names (own_names prop_tree) ∷ []))

  -- Behind the tests for one property and for none.
  unfoldable pub build_block :
      PropTree → List (Result ExploreError Found) → Result ExploreError Found
  unfolding race_split with_split
  build_block (tree sub nil) (child ∷ []) = child
  build_block prop_tree children = race_split (find_all prop_tree) (with_split prop_tree children)

  abbrev build_props :
      List Text → PropTree → List (Result ExploreError Found) → Result ExploreError Found
  build_props [] prop_tree children = ok ([], [])
  build_props (name ∷ []) prop_tree children = build_one name
  build_props (name ∷ next ∷ names) prop_tree children = build_block prop_tree children

  -- `build_strategy_rec` of each list in a tree.
  unfoldable pub build_children : PropTree → List (Result ExploreError Found)
  unfolding find_all build_one build_block
  build_children nil = []
  build_children (prop name rest) = build_children rest
  build_children (tree sub rest) =
      build_props (find_all sub) sub (build_children sub) ∷ build_children rest

  unfoldable pub build_strategy_rec : PropTree → Result ExploreError Found
  unfolding build_children
  build_strategy_rec prop_tree =
      build_props (find_all prop_tree) prop_tree (build_children prop_tree)

abbrev pub or_empty : Option (List Strategy) → List Strategy
or_empty none = []
or_empty (some strategy) = strategy

abbrev lift_split : Result SplitError PropTree → Result ExploreError PropTree
lift_split (err e) = err (of_split e)
lift_split (ok blocks) = ok blocks

-- What is built for the properties without a proof.
unfoldable pub build_missing : Engines → Bool → ℕ → List Text → Result ExploreError Found
unfolding build_strategy_rec gather split_by_prefixes
build_missing engines true step not_done =
    gather engines true step
      (map (λ name. build_strategy_rec engines true step (prop name nil)) not_done)
build_missing engines false step not_done =
    lift_split (split_by_prefixes not_done) >>= build_strategy_rec engines false step

-- `construct_strategy`, from what `load_strategy` returned. `store_strategy` returns the strategy
-- that it is given (Strategy/File).
unfoldable pub construct_strategy :
    Engines
    → (hard : Bool) → ℕ
    → Option (List Strategy)
    → List Text
    → Result ExploreError (Bool × List Strategy × List Text)
unfolding missing_from build_missing
construct_strategy engines hard step loaded props =
    let strategy = or_empty loaded in
    let not_done = missing_from strategy props in
    if is_empty not_done
    then ok (false, strategy, [])
    else build_missing engines hard step not_done
      >>= (λ (found, failures). ok (true, strategy ++ found, failures))
