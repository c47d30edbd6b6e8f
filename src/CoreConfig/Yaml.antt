-- ===== src/CoreConfig/Yaml.antt =====
-- What `yaml.load` hands to util/ibex_config.py, as far as its `isinstance` tests see it. A key
-- is a string; a value that is no bool, int or str is kept as its `repr`.
use ibex.Base.{◌≡◌, Bool, true, false, [], ◌∷◌, String, contains, string_eq}
use ibex.Base.Dict.{Dict, keys}
use ibex.Base.Text.{Text, codes}
use ibex.Base.Int.{ℤ, show_int}

pub data Value : Type 0 where
  boolean : Bool → Value
  integer : ℤ → Value
  string : Text → Value
  other : Text → Value

-- A value of the top-level dict.
pub data ConfigYaml : Type 0 where
  mapping : Dict String Value → ConfigYaml
  not_mapping : ConfigYaml

-- The whole file.
pub data Document : Type 0 where
  document : Dict String ConfigYaml → Document
  not_document : Document

-- `f'{val}'`
unfoldable pub show_value : Value → Text
unfolding show_int
show_value (boolean true) = codes "True"
show_value (boolean false) = codes "False"
show_value (integer n) = show_int n
show_value (string s) = s
show_value (other repr) = repr

-- No key occurs twice, as in every Python dict.
abbrev pub IsDict {ℓ} : {A : Type ℓ} → Dict String A → Type 0
IsDict [] = Unit
IsDict ((k, _) ∷ d) = (contains (keys d) k ≡ false) × IsDict d
