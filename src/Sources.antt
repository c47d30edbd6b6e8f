-- ===== src/Sources.antt =====
-- tools/ibex_sbfl_llm/src/ibex_sbfl_llm/snippets.py: the RTL text shown for the candidate blocks.
-- Line numbers are natural numbers; a set of them is its sorted list.
pub mod Errors
pub mod Ranges
pub mod Lines
pub mod Regions
pub mod Collect
