-- ===== src/Examples/Configs.antt =====
-- A configuration for util/ibex_config.py.
use ibex.Base.{◌≡◌, ◌↔◌, refl, true, false, some, [], ◌∷◌, String, All, contains, string_eq}
use ibex.Base.Dict.{Dict, keys, lookup}
use ibex.Base.Int.{pos}
use ibex.Base.Results.{ok}
use ibex.Base.Text.{codes}
use ibex.CoreConfig.Yaml.{Value, boolean, integer, string, ConfigYaml, mapping, document, IsDict}
use ibex.CoreConfig.Read.{known_fields, Config, lacking_keys, subscript, make_config, parse_config}
use ibex.CoreConfig.Read.Accepted.{make_config-ok_iff}
use ibex.CoreConfig.Read.Fields.{IsTyped}
use ibex.CoreConfig.Read.Named.{AllMade, parse_config-ok_iff}

abbrev small : Dict String Value
small =
    ("RV32E", boolean false)
    ∷ ("RV32M", string (codes "x"))
    ∷ ("RV32B", string (codes "x"))
    ∷ ("RV32ZC", string (codes "x"))
    ∷ ("RegFile", string (codes "x"))
    ∷ ("BranchTargetALU", boolean false)
    ∷ ("WritebackStage", boolean false)
    ∷ ("ICache", integer (pos 1))
    ∷ ("ICacheECC", boolean false)
    ∷ ("ICacheScramble", boolean false)
    ∷ ("BranchPredictor", boolean false)
    ∷ ("DbgTriggerEn", boolean false)
    ∷ ("SecureIbex", boolean false)
    ∷ ("PMPEnable", boolean false)
    ∷ ("PMPGranularity", integer (pos 4))
    ∷ ("PMPNumRegions", integer (pos 4))
    ∷ ("MHPMCounterNum", integer (pos 4))
    ∷ ("MHPMCounterWidth", integer (pos 4))
    ∷ []

make_config-ok_iff_example : ((config : Config) × (make_config (mapping small) ≡ ok config)) ↔ (
    All (λ key. contains (keys known_fields) key ≡ true) (keys small)
    × All (IsTyped small) known_fields)
make_config-ok_iff_example = make_config-ok_iff small

abbrev only_rv32e : Dict String Value
only_rv32e = ("RV32E", boolean true) ∷ []

lacks_icache : contains (lacking_keys only_rv32e) "ICache" ≡ true
unfolding lacking_keys keys string_eq
lacks_icache = refl

rv32e_known : All (λ key. contains (keys known_fields) key ≡ true) (keys only_rv32e)
unfolding keys string_eq
rv32e_known = (refl, tt)

abbrev made : Config
made = record {
  params = small;
  rv32e = false;
  rv32m = codes "x";
  rv32b = codes "x";
  rv32zc = codes "x";
  reg_file = codes "x";
  branch_target_alu = false;
  writeback_stage = false;
  icache = true;
  icache_ecc = false;
  icache_scramble = false;
  branch_predictor = false;
  dbg_trigger_en = false;
  secure_ibex = false;
  pmp_enable = false;
  pmp_granularity = pos 4;
  pmp_num_regions = pos 4;
  mhpm_counter_num = pos 4;
  mhpm_counter_width = pos 4;
}

small-made : make_config (mapping small) ≡ ok made
unfolding make_config keys string_eq subscript lookup
small-made = refl

abbrev file : Dict String ConfigYaml
file = ("small", mapping small) ∷ []

file_IsDict : IsDict file
unfolding keys
file_IsDict = (refl, tt)

parse_config-ok_iff_example : (parse_config "small" (document file) ≡ ok made) ↔ (
    AllMade file
    × ((cfg_yaml : ConfigYaml) × (lookup "small" file ≡ some cfg_yaml)
        × (make_config cfg_yaml ≡ ok made)))
parse_config-ok_iff_example = parse_config-ok_iff file "small" made file_IsDict
