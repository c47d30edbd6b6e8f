-- ===== src/Sbfl.antt =====
-- The data that the SBFL tools share: ranked blocks of result.log, the blocks of blocks.json,
-- rerank candidates, and the description of an inserted bug.
-- (tools/ibex_sbfl_common artifacts.py, tools/ibex_sbfl_llm llm/models.py)
use ibex.Base.{ℕ, String, List}
use ibex.Base.Text.{Text}

-- One entry of `parse_block_suspiciousness`.
pub record RankedBlock : Type 0 where
  pub rank : ℕ
  pub scope : Text
  pub bid : ℕ
  pub sus : Text

-- A block of blocks.json, read through the defaults of `block.get`.
pub record Block : Type 0 where
  pub scope : Text
  pub bid : ℕ
  pub module_name : String
  pub lines : List ℕ
  pub type_name : String

pub record Candidate : Type 0 where
  pub candidate_id : String
  pub original_rank : ℕ
  pub suspiciousness : Text
  pub module_name : String
  pub scope : Text
  pub bid : ℕ
  pub lines : List ℕ
  pub block_type : String

-- The three keys that `load_bug_info_from_case_dir` insists on.
pub record BugInfo : Type 0 where
  pub module_name : String
  pub scope_name : Text
  pub modify_line : List ℕ
