-- ===== src/CoreConfig/Read/Accepted.antt =====
-- Which mappings `Config` accepts.
use ibex.Base.{
  ◌≡◌, ◌↔◌, refl, true, false, some, List, [], ◌∷◌, String, All, contains, is_empty, string_eq,
  arith, sym, ◌∙◌,
}
use ibex.Base.Dict.{Dict, keys, lookup}
use ibex.Base.Results.{ok, err}
use ibex.CoreConfig.Yaml.{Value, mapping}
use ibex.CoreConfig.Read.{
  missing_keys, FieldType, known_fields, Config, minus, extra_keys, lacking_keys, read_fields,
  make_config,
}
use ibex.CoreConfig.Read.Fields.{IsTyped}
use ibex.CoreConfig.Read.Attributes.{read_fields-ok, read_fields_total}

minus-empty : (s t : List String) → (is_empty (minus s t) ≡ true) ↔ All (λ x. contains t x ≡ true) s
unfolding minus
minus-empty [] t = (λ _. tt, λ _. refl)
minus-empty (x ∷ s) t = ground (arith, minus-empty s t)

lookup-contains :
    (fld : String) (yml : Dict String Value) (val : Value)
    → lookup fld yml ≡ some val
    → contains (keys yml) fld ≡ true
unfolding lookup keys
lookup-contains fld [] val h = ground arith
lookup-contains fld ((k, w) ∷ yml) val h = ground (arith, lookup-contains fld yml val)

typed-lacks_none :
    (yml : Dict String Value) (fields : List (String × FieldType))
    → All (IsTyped yml) fields
    → All (λ fld. contains (keys yml) fld ≡ true) (keys fields)
unfolding keys
typed-lacks_none yml [] _ = tt
typed-lacks_none yml ((fld, typ) ∷ fields) ((val, has, _), rest) =
    (lookup-contains fld yml val has, typed-lacks_none yml fields rest)

make_config-read :
    (yml : Dict String Value)
    → is_empty (extra_keys yml) ≡ true
    → is_empty (lacking_keys yml) ≡ true
    → make_config (mapping yml) ≡ read_fields yml
unfolding make_config
make_config-read yml e l = rw (e, l) refl

make_config-checks :
    (yml : Dict String Value) (config : Config)
    → make_config (mapping yml) ≡ ok config
    → (is_empty (extra_keys yml) ≡ true) × (is_empty (lacking_keys yml) ≡ true)
unfolding make_config
make_config-checks yml config h = ground arith

extra-nil :
    (yml : Dict String Value)
    → is_empty (minus (keys yml) (keys known_fields)) ≡ true
    → extra_keys yml ≡ []
unfolding extra_keys
extra-nil yml h = ground arith

not_empty : (xs : List String) (x : String) → contains xs x ≡ true → is_empty xs ≡ false
not_empty [] x h = absurd cc
not_empty (y ∷ ys) x h = refl

-- A mapping is accepted exactly if it has no unknown key and gives every known field a value of
-- the field's type, where 0 and 1 count as bools and a bool counts as an int.
pub make_config-ok_iff :
    (yml : Dict String Value)
    → ((config : Config) × (make_config (mapping yml) ≡ ok config)) ↔ (
        All (λ key. contains (keys known_fields) key ≡ true) (keys yml)
        × All (IsTyped yml) known_fields)
unfolding extra_keys lacking_keys
make_config-ok_iff yml = (
  λ (config, h).
      let (e, l) = make_config-checks yml config h in
      (
        (minus-empty (keys yml) (keys known_fields)).0 e,
        (read_fields-ok yml config (sym (make_config-read yml e l) ∙ h)).1,
      ),
  λ (known, typed).
      let e = (minus-empty (keys yml) (keys known_fields)).1 known in
      let l =
        (minus-empty (keys known_fields) (keys yml)).1 (typed-lacks_none yml known_fields typed) in
      let (config, r) = read_fields_total yml typed in (config, make_config-read yml e l ∙ r),
)

-- Whatever known key a mapping without unknown keys lacks, the message names none.
make_config-missing_keys :
    (yml : Dict String Value) (fld : String)
    → All (λ key. contains (keys known_fields) key ≡ true) (keys yml)
    → contains (lacking_keys yml) fld ≡ true
    → make_config (mapping yml) ≡ err (missing_keys [])
unfolding make_config
make_config-missing_keys yml fld known lacks =
    let none_extra = extra-nil yml ((minus-empty (keys yml) (keys known_fields)).1 known) in
    rw (none_extra, not_empty (lacking_keys yml) fld lacks) refl

-- What was accepted is kept, and typed.
pub make_config-typed :
    (yml : Dict String Value) (config : Config)
    → make_config (mapping yml) ≡ ok config
    → All (IsTyped config.params) known_fields
make_config-typed yml config h =
    let (e, l) = make_config-checks yml config h in
    let (kept, typed) = read_fields-ok yml config (sym (make_config-read yml e l) ∙ h) in
    rw kept typed
