-- ===== src/Examples/Searches.antt =====
-- Searches for proofs of dv/formal/conductor.py.
use ibex.Base.{◌≡◌, ◌≢◌, refl, Bool, true, false, none, some, List, [], ◌∷◌, ◌++◌, All, contains}
use ibex.Base.Int.{pos}
use ibex.Base.Results.{ok, err}
use ibex.Base.Text.{Text, codes, text_eq}
use ibex.Conductor.{ProcessResult}
use ibex.Conductor.Explore.{awaited_twice, Engines, construct_strategy}
use ibex.Conductor.Explore.Twice.{construct_strategy-twice}
use ibex.Conductor.Explore.Hard.{IsProven, IsAccounted, construct_strategy-hard}
use ibex.Conductor.Strategy.{Strategy, missing_from}

abbrev proven : ProcessResult
proven = record {
  code = some (pos 20);
  reason = codes "exited";
  max_mem = 1;
  dt = 1;
  stdout = none;
  stderr = none;
}

-- Every property holds, and is proven at once.
abbrev engines : Engines
engines = record { prepare_aiger = λ _ _. true; shell = λ _ _ _. proven }

abbrev props : List Text
props = codes "Wrap_Step3" ∷ codes "Mem_Load" ∷ []

missing : missing_from [] props ≡ props
unfolding missing_from text_eq
missing = refl

some_missing : missing_from [] props ≢ []
some_missing e = let lost = rw missing at e in cc

named : All (λ name. name ≢ []) (missing_from [] props)
named = rw missing ((λ p. cc), ((λ p. cc), tt))

construct_strategy-twice_example : construct_strategy engines false 0 none props ≡ err awaited_twice
construct_strategy-twice_example =
    construct_strategy-twice engines 0 (λ _. refl) none props some_missing named

construct_strategy-hard_example :
    (new : Bool) × (found : List Strategy) × (failures : List Text) × (construct_strategy engines
        true 0 none props
      ≡ ok (new, [] ++ found, failures))
    × All (IsProven engines 0 (λ _. refl)) found
    × ((p : Text)
        → contains props p ≡ true
        → IsAccounted engines 0 (λ _. refl) ([] ++ found) failures p)
construct_strategy-hard_example = construct_strategy-hard engines 0 (λ _. refl) none props
