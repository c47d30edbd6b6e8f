-- ===== src/Lib.antt =====
-- Python tools around the Ibex core: the scheduler of its formal proofs, the comparison of
-- instruction traces, the tools for spectrum-based fault localisation (SBFL), the judgement of a
-- UVM regression run, the configurations of the core, and the check of the tools that it needs.
--
-- The parts and their files. A function keeps its name; `Text` is a list of code points.
--   Base: what Python gives them all: lists, dicts, sets, the stable sort, texts, exceptions as
--     results, ints.
--   TraceDiff: scripts/trace_pc_diff.py. `parse_trace_log` turns lines into entries,
--     `collect_diffs` compares two logs behind their skips, `write_tsv` prints the table.
--   Sbfl: the records that the SBFL tools hand to each other.
--   Sources: tools/ibex_sbfl_llm/src/ibex_sbfl_llm/snippets.py, which chooses source lines around
--     candidate blocks and shrinks their windows until they fit a budget of characters.
--   Ranks: tools/ibex_sbfl_common/src/ibex_sbfl_common/artifacts.py, the rank that is reported for
--     an inserted bug, with ties of suspiciousness; Reranked is the same for a ranking by an LLM.
--   RegressionCheck: `check_ibex_uvm_log` of
--     dv/uvm/core_ibex/riscv_dv_extension/ibex_log_to_trace_csv.py and `compare_test_run` of
--     dv/uvm/core_ibex/scripts/check_logs.py, which calls it.
--   CoreConfig: util/ibex_config.py, from the parsed YAML to the options of each simulator.
--   Conductor: dv/formal/conductor.py. Process and Runner are the classes `Process` and
--     `ProcessRunner`, which starts, stops and drops subprocesses; Runner/Plan is what a poll
--     promises, as moves between lists of ids. Split is `split_by_prefixes`, Strategy the strategy
--     files, Explore the search for proofs, Prove the mode `prove` with its exit code, Modes the
--     other modes, Select what `main` hands to a mode.
--   DuplicateBugs: scripts/find_duplicate_bug.py, from the files that it finds to the rows of its
--     tables.
--   ToolRequirements: util/check_tool_requirements.py, with its regular expressions as lists of
--     matches.
--   Batch: tools/ibex_sbfl_batch/src/ibex_sbfl_batch: runner.py, which validates a configuration,
--     writes the command of each case and runs it, and logparse.py, which reads such a command
--     back for a rerun, sweep.py, which runs the batch over a grid of settings, and the counts and
--     means of statistics.py.
--   Reranking: tools/ibex_sbfl_rerank/src/ibex_sbfl_rerank/ranking.py, which combines the scores
--     of a model with the suspiciousness of candidates. What Python's floats do in it are the named
--     hypotheses of the record `AreFloats`, whose order is that of finite ones.
--   RerankJobs: scripts/rerank_sbfl_with_llm.py. Arguments are its options around argparse, Cases
--     the results that a summary selects, Jobs what run.log and a patch set make of them, Pool is
--     `run_jobs`, whose threads end in any order, and Main puts them together.
--   Examples: concrete inputs.
--
-- How state is modelled. A loop over a file or a list is a recursion on that list; the variables
-- that it changes are arguments or a record. An exception is the error of a `Result`. A case of
-- the batch runner returns its result beside the list of the files written and commands started.
-- A process of the conductor is a record that is passed on where Python shares the object; the
-- processes that the runner dropped, which only those who await them hold, are a third list.
--
-- Parameters: the file system (`RtlTree`, `FileRead`, `World`), Python's `Decimal` and float
-- (`Decimals`, `Float`, `Numbers`, `Number`), and `int` of a value that is neither a bool nor an
-- int. What the system shows of a process and of its memory (`Seen`, `Cycle`), the strategy files
-- and the proofs (`Calls`, `Engines`), hashlib, json and UTF-8 (`Library`), files and paths
-- (`Files`), argparse (an argument), installed tools (`Machine`) and packaging.version
-- (`Versions`). The conductor's memory is counted in bytes and its time in milliseconds, where the
-- source has floats; its clock does not go back.
--
-- Bounds and fuel: `str` of a number has as much fuel as the number, which is more than its
-- digits. The rounds of `collect_diffs` are counted as in the source. A loop of the runner's poll
-- has as much fuel as the list that it pops is long, and `split_by_prefixes` as the longest list of
-- chunks; that this is enough is among the results. `run_jobs` submits with as much fuel as there
-- are jobs, and stops by its tests. The endless loop of `bmc_mode` is cut off behind as many rounds
-- as are asked for. Everything else is recursion on the data.
--
-- Not modelled: what argparse parses, printing, network clients, process management outside the
-- conductor and threads (the order in which futures complete is an argument), the conductor's log
-- and its time limits, the regular expressions that read result.log, and the vendored projects.
-- Within what is modelled, these answers are left out: a NaN as a suspiciousness or a score
-- (`Decimals`), an exception of psutil and a pipe that is not UTF-8 when the conductor polls a
-- process (`Seen`), and in a case of the batch a log file that cannot be written and an exception of
-- the disassembly (`World`). `IsLive` says that a process was started and is not over; after a stop
-- for want of memory it has its killed subprocess in `proc` until it is started again.
pub mod Base
pub mod Batch
pub mod Conductor
pub mod CoreConfig
pub mod DuplicateBugs
pub mod Examples
pub mod Ranks
pub mod RegressionCheck
pub mod RerankJobs
pub mod Reranking
pub mod Sbfl
pub mod Sources
pub mod ToolRequirements
pub mod TraceDiff
