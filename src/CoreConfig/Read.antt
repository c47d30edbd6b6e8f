-- ===== src/CoreConfig/Read.antt =====
-- `Config`, `Configs` and `parse_config` of util/ibex_config.py.
pub mod Fields
pub mod Attributes
pub mod Accepted
pub mod Named
use ibex.Base.{
  ℕ, zero, suc, ◌≡◌, Bool, true, false, not, Option, none, some, List, [], ◌∷◌, ◌++◌, map, String,
  contains, is_empty, string_eq, if◌then◌else◌,
}
use ibex.Base.Dict.{Dict, keys, lookup, insert}
use ibex.Base.Results.{Result, ok, err, ◌>>=◌, ◌>>◌, raise_if}
use ibex.Base.Text.{Text}
use ibex.Base.Int.{ℤ, pos, negsuc}
use ibex.CoreConfig.Yaml.{
  Value, boolean, integer, string, other, ConfigYaml, mapping, not_mapping, Document, document,
  not_document,
}

pub data FieldType : Type 0 where
  bool_type str_type int_type : FieldType

abbrev pub known_fields : List (String × FieldType)
known_fields =
    ("RV32E", bool_type)
    ∷ ("RV32M", str_type)
    ∷ ("RV32B", str_type)
    ∷ ("RV32ZC", str_type)
    ∷ ("RegFile", str_type)
    ∷ ("BranchTargetALU", bool_type)
    ∷ ("WritebackStage", bool_type)
    ∷ ("ICache", bool_type)
    ∷ ("ICacheECC", bool_type)
    ∷ ("ICacheScramble", bool_type)
    ∷ ("BranchPredictor", bool_type)
    ∷ ("DbgTriggerEn", bool_type)
    ∷ ("SecureIbex", bool_type)
    ∷ ("PMPEnable", bool_type)
    ∷ ("PMPGranularity", int_type)
    ∷ ("PMPNumRegions", int_type)
    ∷ ("MHPMCounterNum", int_type)
    ∷ ("MHPMCounterWidth", int_type)
    ∷ []

-- The ValueError messages of `Config`, and `ConfigException`.
pub data ConfigError : Type 0 where
  not_a_dict : ConfigError
  unknown_keys : List String → ConfigError
  missing_keys : List String → ConfigError
  out_of_range : String → ℤ → ConfigError
  expected_bool : String → Value → ConfigError
  expected_int : String → Value → ConfigError
  expected_str : String → Value → ConfigError
  key_error : String → ConfigError
  invalid_int : String → ConfigError
  not_a_dictionary : ConfigError
  in_config : String → ConfigError → ConfigError
  not_found : String → ConfigError

-- The attributes that `Config.__init__` sets.
pub record Config : Type 0 where
  pub params : Dict String Value
  pub rv32e : Bool
  pub rv32m : Text
  pub rv32b : Text
  pub rv32zc : Text
  pub reg_file : Text
  pub branch_target_alu : Bool
  pub writeback_stage : Bool
  pub icache : Bool
  pub icache_ecc : Bool
  pub icache_scramble : Bool
  pub branch_predictor : Bool
  pub dbg_trigger_en : Bool
  pub secure_ibex : Bool
  pub pmp_enable : Bool
  pub pmp_granularity : ℤ
  pub pmp_num_regions : ℤ
  pub mhpm_counter_num : ℤ
  pub mhpm_counter_width : ℤ

-- `yml[fld]`
unfoldable pub subscript : String → Dict String Value → Result ConfigError Value
unfolding lookup string_eq
subscript fld yml = elim (lookup fld yml) [ none ↦ err (key_error fld) | some val ↦ ok val ]

abbrev pub to_bool : String → Value → Result ConfigError Bool
to_bool fld (boolean b) = ok b
to_bool fld (integer (pos zero)) = ok false
to_bool fld (integer (pos (suc zero))) = ok true
to_bool fld (integer n) = err (out_of_range fld n)
to_bool fld val = err (expected_bool fld val)

-- A Python bool is an int, `True` being 1, and is returned as it is.
abbrev pub to_int : String → Value → Result ConfigError ℤ
to_int fld (boolean true) = ok (pos 1)
to_int fld (boolean false) = ok (pos 0)
to_int fld (integer n) = ok n
to_int fld val = err (expected_int fld val)

abbrev pub to_str : String → Value → Result ConfigError Text
to_str fld (string s) = ok s
to_str fld val = err (expected_str fld val)

unfoldable pub read_bool : String → Dict String Value → Result ConfigError Bool
unfolding subscript
read_bool fld yml = subscript fld yml >>= to_bool fld

unfoldable pub read_int : String → Dict String Value → Result ConfigError ℤ
unfolding subscript
read_int fld yml = subscript fld yml >>= to_int fld

unfoldable pub read_str : String → Dict String Value → Result ConfigError Text
unfolding subscript
read_str fld yml = subscript fld yml >>= to_str fld

-- `s - t`
unfoldable pub minus : List String → List String → List String
unfolding string_eq
minus [] t = []
minus (x ∷ s) t = let rest = minus s t in if contains t x then rest else x ∷ rest

unfoldable pub extra_keys : Dict String Value → List String
unfolding minus
extra_keys yml = minus (keys yml) (keys known_fields)

unfoldable pub lacking_keys : Dict String Value → List String
unfolding minus
lacking_keys yml = minus (keys known_fields) (keys yml)

-- The attributes, read in the source's order.
unfoldable pub read_fields : Dict String Value → Result ConfigError Config
unfolding read_bool read_int read_str
read_fields yml = read_bool "RV32E" yml >>= λ rv32e_value. read_str "RV32M" yml >>= λ rv32m_value.
    read_str "RV32B" yml >>= λ rv32b_value. read_str "RV32ZC" yml >>= λ rv32zc_value.
    read_str "RegFile" yml >>= λ reg_file_value.
    read_bool "BranchTargetALU" yml >>= λ branch_target_alu_value.
    read_bool "WritebackStage" yml >>= λ writeback_stage_value.
    read_bool "ICache" yml >>= λ icache_value. read_bool "ICacheECC" yml >>= λ icache_ecc_value.
    read_bool "ICacheScramble" yml >>= λ icache_scramble_value.
    read_bool "BranchPredictor" yml >>= λ branch_predictor_value.
    read_bool "DbgTriggerEn" yml >>= λ dbg_trigger_en_value.
    read_bool "SecureIbex" yml >>= λ secure_ibex_value.
    read_bool "PMPEnable" yml >>= λ pmp_enable_value.
    read_int "PMPGranularity" yml >>= λ pmp_granularity_value.
    read_int "PMPNumRegions" yml >>= λ pmp_num_regions_value.
    read_int "MHPMCounterNum" yml >>= λ mhpm_counter_num_value.
    read_int "MHPMCounterWidth" yml >>= λ mhpm_counter_width_value. ok (record {
      params = yml;
      rv32e = rv32e_value;
      rv32m = rv32m_value;
      rv32b = rv32b_value;
      rv32zc = rv32zc_value;
      reg_file = reg_file_value;
      branch_target_alu = branch_target_alu_value;
      writeback_stage = writeback_stage_value;
      icache = icache_value;
      icache_ecc = icache_ecc_value;
      icache_scramble = icache_scramble_value;
      branch_predictor = branch_predictor_value;
      dbg_trigger_en = dbg_trigger_en_value;
      secure_ibex = secure_ibex_value;
      pmp_enable = pmp_enable_value;
      pmp_granularity = pmp_granularity_value;
      pmp_num_regions = pmp_num_regions_value;
      mhpm_counter_num = mhpm_counter_num_value;
      mhpm_counter_width = mhpm_counter_width_value;
    })

-- `Config(yml)`. The message about missing keys shows `extra_keys`.
unfoldable pub make_config : ConfigYaml → Result ConfigError Config
unfolding extra_keys lacking_keys read_fields
make_config not_mapping = err not_a_dict
make_config (mapping yml) =
    raise_if (not (is_empty (extra_keys yml))) (unknown_keys (extra_keys yml))
    >> raise_if (not (is_empty (lacking_keys yml))) (missing_keys (extra_keys yml))
    >> read_fields yml

-- The loop of `Configs(yml)` over the items that are left.
unfoldable pub add_configs :
    Dict String Config → Dict String ConfigYaml → Result ConfigError (Dict String Config)
unfolding make_config insert string_eq
add_configs configs [] = ok configs
add_configs configs ((cfg_name, cfg_yaml) ∷ items) = elim (make_config cfg_yaml) [
  | err e ↦ err (in_config cfg_name e)
  | ok config ↦ add_configs (insert cfg_name config configs) items
]

unfoldable pub make_configs : Document → Result ConfigError (Dict String Config)
unfolding add_configs
make_configs not_document = err not_a_dictionary
make_configs (document yml) = add_configs [] yml

-- `parse_config` behind the YAML reader.
unfoldable pub parse_config : String → Document → Result ConfigError Config
unfolding make_configs lookup
parse_config config_name yml = make_configs yml >>= λ configs. elim (lookup config_name configs) [
  | none ↦ err (not_found config_name)
  | some config ↦ ok config
]
