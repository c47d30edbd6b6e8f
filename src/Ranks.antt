-- ===== src/Ranks.antt =====
-- tools/ibex_sbfl_common/src/ibex_sbfl_common/artifacts.py: where an inserted bug stands in a
-- ranking of blocks.
pub mod Report
pub mod Ties
pub mod Find
pub mod Reranked
