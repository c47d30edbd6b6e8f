-- ===== src/CoreConfig/Options/Printed.antt =====
-- Every configuration that `Config` accepts can be printed.
use ibex.Base.{◌≡◌, refl, true, false, Option, List, [], ◌∷◌, ◌++◌, map, String, All, string_eq}
use ibex.Base.Dict.{Dict}
use ibex.Base.Results.{ok}
use ibex.Base.Text.{Text, codes, join}
use ibex.Base.Int.{ℤ}
use ibex.CoreConfig.Yaml.{Value, boolean, integer, string, other, mapping, show_value}
use ibex.CoreConfig.Read.{
  FieldType, bool_type, str_type, int_type, known_fields, subscript, Config, make_config,
}
use ibex.CoreConfig.Read.Fields.{accepts, IsTyped, subscript-ok}
use ibex.CoreConfig.Read.Accepted.{make_config-typed}
use ibex.CoreConfig.Options.{
  quote, SimOpts, field_args, sim_args, sim_output, fusesoc_args, fusesoc_output,
}

fusesoc_args_total :
    (config : Config) (fields : List (String × FieldType))
    → All (IsTyped config.params) fields
    → (args : List Text) × (fusesoc_args config fields ≡ ok args)
unfolding fusesoc_args subscript
fusesoc_args_total config [] _ = ([], refl)
fusesoc_args_total config ((fld, typ) ∷ fields) ((val, has, fits), typed) =
    let (args, h) = fusesoc_args_total config fields typed in
    (
      quote (codes "--" ++ (codes fld ++ (codes "=" ++ show_value val))) ∷ args,
      rw (fusesoc_args, (subscript-ok fld config.params val).1 has, h) refl,
    )

-- `fusesoc_opts` prints every configuration that `Config` accepts.
pub fusesoc_output_total :
    (yml : Dict String Value) (config : Config)
    → make_config (mapping yml) ≡ ok config
    → (text : Text) × (fusesoc_output config ≡ ok text)
unfolding fusesoc_output
fusesoc_output_total yml config h =
    let (args, h) = fusesoc_args_total config known_fields (make_config-typed yml config h) in
    (join (codes " ") args, rw h refl)

module _ (int_of : Value → Option ℤ) (opts : SimOpts)
    (ins_hier_path string_define_prefix : Text) where
  field_args_total :
      (fld : String) (typ : FieldType) (val : Value)
      → accepts typ val ≡ true
      → (args : List Text) × (field_args int_of opts ins_hier_path string_define_prefix fld typ val
          ≡ ok args)
  unfolding field_args
  field_args_total fld str_type val fits = (_, refl)
  field_args_total fld bool_type (boolean true) fits = (_, refl)
  field_args_total fld bool_type (boolean false) fits = (_, refl)
  field_args_total fld bool_type (integer n) fits = (_, refl)
  field_args_total fld bool_type (string s) fits = absurd cc
  field_args_total fld bool_type (other s) fits = absurd cc
  field_args_total fld int_type (boolean true) fits = (_, refl)
  field_args_total fld int_type (boolean false) fits = (_, refl)
  field_args_total fld int_type (integer n) fits = (_, refl)
  field_args_total fld int_type (string s) fits = absurd cc
  field_args_total fld int_type (other s) fits = absurd cc

  sim_args_total :
      (config : Config) (fields : List (String × FieldType))
      → All (IsTyped config.params) fields
      → (args : List Text) × (sim_args int_of opts ins_hier_path string_define_prefix config fields
          ≡ ok args)
  unfolding sim_args subscript
  sim_args_total config [] _ = ([], refl)
  sim_args_total config ((fld, typ) ∷ fields) ((val, has, fits), typed) =
      let (args, f) = field_args_total fld typ val fits in
      let (rest, h) = sim_args_total config fields typed in
      (map quote args ++ rest, rw (sim_args, (subscript-ok fld config.params val).1 has, f, h) refl)

  -- Every simulator's options are printed for every configuration that `Config` accepts: `int`
  -- is never given a value that it may refuse.
  pub sim_output_total :
      (yml : Dict String Value) (config : Config)
      → make_config (mapping yml) ≡ ok config
      → (text : Text) × (sim_output int_of opts ins_hier_path string_define_prefix config ≡ ok text)
  unfolding sim_output
  sim_output_total yml config h =
      let (args, h) = sim_args_total config known_fields (make_config-typed yml config h) in
      (join (codes " ") args, rw h refl)
