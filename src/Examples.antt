-- ===== src/Examples.antt =====
-- Concrete inputs: each theorem with hypotheses, applied where they hold.
mod Traces
mod SourceText
mod Ranking
mod Regression
mod Configs
mod Batches
mod Sweeps
mod Rerank
mod Proofs
mod Statistics
mod Tools
mod Duplicates
mod Searches
mod RerankRuns
mod RerankSelections
