-- ===== src/RerankJobs.antt =====
-- scripts/rerank_sbfl_with_llm.py, which reranks one SBFL result or a batch of them.
pub mod Arguments
pub mod Cases
pub mod Jobs
pub mod Main
pub mod Pool
