-- ===== src/ToolRequirements.antt =====
-- util/check_tool_requirements.py, which compares installed tools with the versions required.
pub mod Regex
pub mod Semver
pub mod Check
pub mod Read
pub mod Main
use ibex.Base.{ℕ, Bool, Option}
use ibex.Base.Results.{Result}
use ibex.Base.Text.{Text}

-- The subclasses of `ToolReq`; `plain` is itself.
pub data Kind : Type 0 where
  plain edalize vcs verible verilator vivado ninja : Kind

-- `as_needed` is set by `dict_to_tool_req`.
pub record ToolReq : Type 0 where
  pub kind : Kind
  pub tool : Text
  pub min_version : Text
  pub as_needed : Bool

-- What a tool run or an import answers: the output of a command or the text of its error, and the
-- version in a package's module `version` if there is one.
pub record Machine : Type 0 where
  pub run : ToolReq → Result Text Text
  pub import_version : Text → Option Text

-- `packaging.version.Version`: the parser, None where it raises ValueError, and `<`.
pub record Versions : Type 1 where
  pub Version : Type 0
  pub parse : Text → Option Version
  pub less : Version → Version → Bool
