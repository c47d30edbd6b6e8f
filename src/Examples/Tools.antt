-- ===== src/Examples/Tools.antt =====
-- Required tools for util/check_tool_requirements.py.
use ibex.Base.{
  ℕ, ◌*◌, ◌≡◌, refl, true, false, none, some, [], ◌∷◌, ◌++◌, length, contains, ltb, arith,
}
use ibex.Base.Decimals.{value}
use ibex.Base.Dict.{Dict, keys}
use ibex.Base.Results.{ok}
use ibex.Base.Text.{Text, codes, str, text_eq}
use ibex.ToolRequirements.{ToolReq, Machine, Versions, ninja, vcs}
use ibex.ToolRequirements.Main.{main}
use ibex.ToolRequirements.Main.Zero.{AllGood, IsDict, main-zero}
use ibex.ToolRequirements.Read.{
  Defined, mapping, version, fields, text, flag, read_tool_requirements,
}
use ibex.ToolRequirements.Semver.{to_semver}
use ibex.ToolRequirements.Semver.Vcs.{to_semver-sp}

-- A version is the length of its text.
abbrev lengths : Versions
lengths = record { Version = ℕ; parse = λ t. some (length t); less = λ a b. ltb a b }

-- Each tool prints the same line.
abbrev machine : Machine
machine = record { run = λ _. ok (codes "tool 1.10.2"); import_version = λ _. none }

abbrev ninja_req : ToolReq
ninja_req = record {
  kind = ninja;
  tool = codes "ninja";
  min_version = codes "1.8.2";
  as_needed = false;
}

abbrev source : Defined
source = mapping (
    (some (codes "ninja"), version (codes "1.8.2"))
    ∷ (
      some (codes "vcs"),
      fields ((codes "min_version", text (codes "2020.03")) ∷ (codes "as_needed", flag true) ∷ []),
    )
    ∷ [])

abbrev reqs : Dict Text ToolReq
reqs =
    (codes "ninja", ninja_req)
    ∷ (
      codes "vcs",
      record { kind = vcs; tool = codes "vcs"; min_version = codes "2020.03"; as_needed = true },
    )
    ∷ []

read_run : read_tool_requirements source ≡ ok reqs
unfolding read_tool_requirements text_eq
read_run = refl

main_run : main lengths machine (codes "ninja" ∷ []) source ≡ ok 0
unfolding main text_eq
main_run = refl

reqs-IsDict : IsDict reqs
unfolding text_eq keys
reqs-IsDict = (refl, (refl, tt))

main-zero_example :
    AllGood lengths machine (codes "ninja" ∷ []) reqs
    × ((t : Text) → contains (codes "ninja" ∷ []) t ≡ true → contains (keys reqs) t ≡ true)
main-zero_example =
    main-zero lengths machine (codes "ninja" ∷ []) source reqs read_run reqs-IsDict main_run

to_semver-sp_example :
    to_semver vcs true (codes "2020.03-SP2")
    ≡ some (codes "2020" ++ (codes "." ++ (codes "03" ++ str (value 0 (codes "2") * 100))))
to_semver-sp_example =
    to_semver-sp b'2' b'0' b'2' (codes "020") (codes "3") []
      (
        (omega arith, omega arith),
        (
          (omega arith, omega arith),
          ((omega arith, omega arith), ((omega arith, omega arith), tt)),
        ),
      )
      ((omega arith, omega arith), ((omega arith, omega arith), tt))
      ((omega arith, omega arith), tt)
