-- ===== src/ToolRequirements/Read.antt =====
-- `dict_to_tool_req` and `read_tool_requirements` of check_tool_requirements.py, from the value of
-- __TOOL_REQUIREMENTS__.
use ibex.Base.{Bool, false, not, Option, none, some, List, [], ◌∷◌, is_empty, ◌==◌, if◌then◌else◌}
use ibex.Base.Dict.{Dict, lookup}
use ibex.Base.Results.{Result, err, ok, ◌>>=◌, ◌>>◌, raise_if}
use ibex.Base.Text.{Text, codes, text_eq}
use ibex.ToolRequirements.{Kind, plain, edalize, vcs, verible, verilator, vivado, ninja, ToolReq}

-- A value in the dict of a tool, by the tests of its type.
pub data Field : Type 0 where
  text : Text → Field
  flag : Bool → Field
  other : Field

-- The value of a tool.
pub data RawValue : Type 0 where
  version : Text → RawValue
  fields : Dict Text Field → RawValue
  other_value : RawValue

-- `ReqErr`, by its message.
pub data ReqErr : Type 0 where
  missing_min_version min_version_no_string as_needed_no_bool unexpected_keys : ReqErr
  not_defined no_dict invalid_key invalid_value : ReqErr

-- `raw.copy()` behind a `del`.
unfoldable pub delete : Text → Dict Text Field → Dict Text Field
unfolding text_eq
delete key [] = []
delete key ((own, value) ∷ raw) =
    if key == own then delete key raw else (own, value) ∷ delete key raw

abbrev classes : Dict Text Kind
classes =
    (codes "edalize", edalize)
    ∷ (codes "vcs", vcs)
    ∷ (codes "verible", verible)
    ∷ (codes "verilator", verilator)
    ∷ (codes "vivado", vivado)
    ∷ (codes "ninja", ninja)
    ∷ []

-- `classes.get(tool, ToolReq)`
unfoldable pub class_of : Text → Kind
unfolding lookup
class_of tool = elim (lookup tool classes) [ none ↦ plain | some kind ↦ kind ]

abbrev min_version_of : Option Field → Result ReqErr Text
min_version_of none = err missing_min_version
min_version_of (some (text min_version)) = ok min_version
min_version_of _ = err min_version_no_string

abbrev as_needed_of : Option Field → Result ReqErr Bool
as_needed_of none = ok false
as_needed_of (some (flag as_needed)) = ok as_needed
as_needed_of _ = err as_needed_no_bool

unfoldable pub dict_to_tool_req : Text → Dict Text Field → Result ReqErr ToolReq
unfolding lookup delete class_of
dict_to_tool_req tool raw = min_version_of (lookup (codes "min_version") raw) >>= λ min_version.
    as_needed_of (lookup (codes "as_needed") raw) >>= λ as_needed.
    raise_if (not (is_empty (delete (codes "as_needed") (delete (codes "min_version") raw))))
      unexpected_keys
    >> ok (record {
      kind = class_of tool;
      tool = tool;
      min_version = min_version;
      as_needed = as_needed;
    })

-- The body of the loop, for a value and a key that may be no string.
unfoldable pub read_item : Option Text → RawValue → Result ReqErr (Text × ToolReq)
unfolding dict_to_tool_req
read_item none value = err invalid_key
read_item (some tool) other_value = err invalid_value
read_item (some tool) (version min_version) =
    dict_to_tool_req tool ((codes "min_version", text min_version) ∷ []) >>= λ req. ok (tool, req)
read_item (some tool) (fields raw) = dict_to_tool_req tool raw >>= λ req. ok (tool, req)

unfoldable pub read_items : List (Option Text × RawValue) → Result ReqErr (Dict Text ToolReq)
unfolding read_item
read_items [] = ok []
read_items ((tool, value) ∷ raw) =
    read_item tool value >>= λ item. read_items raw >>= λ reqs. ok (item ∷ reqs)

-- What the Python file defines: nothing or None, no dict, or a dict.
pub data Defined : Type 0 where
  nothing_defined no_mapping : Defined
  mapping : List (Option Text × RawValue) → Defined

unfoldable pub read_tool_requirements : Defined → Result ReqErr (Dict Text ToolReq)
unfolding read_items
read_tool_requirements nothing_defined = err not_defined
read_tool_requirements no_mapping = err no_dict
read_tool_requirements (mapping raw) = read_items raw
