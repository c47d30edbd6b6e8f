-- ===== src/Batch/Run.antt =====
-- `_finish` and `_run_case` of runner.py, with `write_command` and
-- `FUSESOC_COMMAND` of workspace.py. What the file system and the child processes do is a record
-- of answers; what is written and started is a list of events. The OSErrors of the log directory's
-- creation, of a start of a child process and of the removal at the end are among the answers; that
-- a log file which was opened cannot be written, or that the disassembly raises, is not.
pub mod Cases
pub mod Pool
pub mod Exit
use ibex.Base.{
  ℕ, zero, suc, ◌≡◌, Bool, true, false, ◌&&◌, ◌||◌, not, Option, none, some, List, [], ◌∷◌, ◌++◌,
  map, is_empty, if◌then◌else◌, ◌==◌, length,
}
use ibex.Base.Int.{is_zero, ℤ, pos, negsuc, show_int}
use ibex.Base.Results.{Result, ok, err, ◌>>=◌, ◌>>◌}
use ibex.Base.Text.{Text, codes, text_eq, join, str}
use ibex.CoreConfig.Options.{quote}
use ibex.Batch.{Float, ExecutionConfig, GenerationConfig, CaseSpec, CaseResult}
use ibex.Batch.Paths.{joined, resolve_workdir_path}
use ibex.Batch.Validate.{BatchError, os_error, validate}
use ibex.Batch.Argv.{generation_args}

pub record World : Type 0 where
  -- The OSError of `logdir.mkdir`.
  pub mkdir_error : Option Text
  pub diff_is_file : Bool
  pub corpus_is_file : Bool
  -- The text of the OSError or SbflBatchError of `copy_workdir`.
  pub copy_error : Option Text
  -- What `ProcessRegistry.run` returns, or the OSError of its `Popen`.
  pub patch_rc : Result Text ℤ
  pub build_rc : Result Text ℤ
  -- The SBFL binary is a file with an execute bit.
  pub binary_is_executable : Bool
  pub sbfl_rc : Result Text ℤ
  -- `workdir.is_dir()` at the end.
  pub workdir_is_dir : Bool
  -- The OSError of `shutil.rmtree`.
  pub rmtree_error : Option Text
  -- `format_elapsed` of the time that passed.
  pub elapsed : Text

pub data Event : Type 0 where
  made_directory : Text → Event
  wrote appended : (path text : Text) → Event
  copied_workdir : Text → Event
  ran : (argv : List Text) (cwd output : Text) → Event
  disassembled : Text → Event
  -- A call of `shutil.rmtree`.
  removed_tree : Text → Event

abbrev pub Ran : Type 0
Ran = Result BatchError CaseResult × List Event

abbrev pub fusesoc_command : List Text
fusesoc_command =
    codes "fusesoc"
    ∷ codes "--cores-root=."
    ∷ codes "run"
    ∷ codes "--target=sim"
    ∷ codes "--setup"
    ∷ codes "--build"
    ∷ codes "lowrisc:ibex:ibex_simple_system_sbfl"
    ∷ codes "--RV32E=0"
    ∷ codes "--RV32M=ibex_pkg::RV32MFast"
    ∷ []

-- `write_command`
unfoldable pub command_event : Text → Text → List Text → Event
unfolding quote join
command_event run_log executable argv =
    appended run_log
      (codes "[RUN] " ++ (join (codes " ") (map quote (executable ∷ argv)) ++ codes "\n"))

abbrev or_empty : Option Text → Text
or_empty none = []
or_empty (some s) = s

module _ {float : Float} (world : World) (execution : ExecutionConfig)
    (cfg : GenerationConfig float) where
  module _ (case : CaseSpec) (logdir workdir : Text) where
    abbrev run_log : Text
    run_log = joined logdir (codes "run.log")

    -- `_finish`, behind the events so far.
    unfoldable pub finish_case : List Event → Text → ℤ → Ran
    unfolding joined show_int
    finish_case events status return_code = (
      ok (record {
        case = case;
        status = status;
        return_code = return_code;
        elapsed = world.elapsed;
        logdir = logdir;
        workdir = workdir;
      }),
      events
          ++ appended (joined logdir (codes "status.txt")) (
              codes "["
              ++ (status
                  ++ (codes "] "
                      ++ (case.rel_dir
                          ++ (codes "/"
                              ++ (case.diff_name
                                  ++ (codes ", status="
                                      ++ (show_int return_code
                                          ++ (codes ", elapsed="
                                              ++ (world.elapsed ++ codes "\n"))))))))))
            ∷ appended run_log (codes "[TIME] elapsed=" ++ (world.elapsed ++ codes "\n"))
            ∷ [],
    )

    abbrev header : Text
    header = join (codes "\n") (
        (codes "[CASE] " ++ case.index)
        ∷ (codes "[REL ] " ++ case.rel_dir)
        ∷ (codes "[DIR ] " ++ case.case_dir)
        ∷ (codes "[DIFF] " ++ case.diff)
        ∷ (codes "[CORP] " ++ or_empty case.corpus)
        ∷ (codes "[LOG ] " ++ logdir)
        ∷ (codes "[WORK] " ++ workdir)
        ∷ []
        ∷ [])

    abbrev executable : Text
    executable = resolve_workdir_path workdir execution.sbfl_bin

    -- Lines 323-326, and lines 346-353.
    unfoldable pub dry_run : List Event → Ran
    unfolding generation_args command_event finish_case
    dry_run events = elim (generation_args cfg case logdir workdir) [
      | err e ↦ (err e, events)
      | ok argv ↦
          finish_case (events ++ command_event run_log executable argv ∷ []) (codes "OK") (pos 0)
    ]

    unfoldable pub run_sbfl : List Event → Ran
    unfolding generation_args command_event finish_case
    run_sbfl events = elim (generation_args cfg case logdir workdir) [
      | err e ↦ (err e, events)
      | ok argv ↦
          let written = events ++ command_event run_log executable argv ∷ [] in
          elim world.sbfl_rc [
            | err e ↦ (err (os_error e), written)
            | ok rc ↦
                finish_case
                  (written
                    ++ ran (executable ∷ argv) workdir (joined logdir (codes "sbfl.log"))
                      ∷ (if execution.disassemble then disassembled logdir ∷ [] else []))
                  (if is_zero rc then codes "OK" else codes "SBFL_FAIL") rc
          ]
    ]

    -- Lines 339-353: behind the patch.
    unfoldable pub build_and_run : List Event → Ran
    unfolding run_sbfl finish_case
    build_and_run events =
        let built =
          events ++ ran fusesoc_command workdir (joined logdir (codes "build.log")) ∷ [] in
        elim world.build_rc [
          | err e ↦ (err (os_error e), events)
          | ok rc ↦
              if not (is_zero rc)
              then finish_case built (codes "BUILD_FAIL") rc
              else if not world.binary_is_executable
              then finish_case
                  (built
                    ++ appended run_log
                        (codes "[ERROR] SBFL binary missing: " ++ (executable ++ codes "\n"))
                      ∷ [])
                  (codes "SBFL_BIN_MISSING") (pos 1)
              else run_sbfl built
        ]

    -- Lines 332-353: behind the copy.
    unfoldable pub patch_and_run : List Event → Ran
    unfolding build_and_run finish_case
    patch_and_run events =
        let patched =
          events
          ++ ran
              (codes "patch"
                ∷ codes "-p1"
                ∷ codes "--forward"
                ∷ codes "--batch"
                ∷ codes "--input"
                ∷ case.diff
                ∷ [])
              workdir (joined logdir (codes "patch.log"))
            ∷ [] in
        elim world.patch_rc [
          | err e ↦ (err (os_error e), events)
          | ok rc ↦
              if not (is_zero rc)
              then finish_case patched (codes "APPLY_FAIL") rc
              else build_and_run patched
        ]

    abbrev lacks_corpus : Option Text → Bool
    lacks_corpus none = false
    lacks_corpus (some corpus) = not world.corpus_is_file

    -- The `try` block.
    unfoldable pub try_block : List Event → Ran
    unfolding dry_run patch_and_run finish_case
    try_block events =
        if not world.diff_is_file
        then finish_case events (codes "DIFF_MISSING") (pos 1)
        else if lacks_corpus case.corpus
        then finish_case events (codes "CORPUS_MISSING") (pos 1)
        else if execution.dry_run
        then dry_run events
        else elim world.copy_error [
          | some e ↦
              finish_case
                (events ++ wrote (joined logdir (codes "copy.log")) (e ++ codes "\n") ∷ [])
                (codes "COPY_FAIL") (pos 1)
          | none ↦ patch_and_run (events ++ copied_workdir workdir ∷ [])
        ]

    abbrev removes : Bool
    removes = world.workdir_is_dir && not execution.keep_workdir

    -- The `finally` block: what it does, and the exception that leaves it.
    unfoldable pub clean_up : List Event
    clean_up =
        if removes
        then appended run_log (codes "[CLEAN] remove workdir: " ++ (workdir ++ codes "\n"))
          ∷ removed_tree workdir
          ∷ []
        else []

    unfoldable pub clean_up_error : Option Text
    clean_up_error = if removes then world.rmtree_error else none

    -- Lines 300-316.
    unfoldable pub opening : List Event
    unfolding joined join
    opening = made_directory logdir ∷ wrote run_log header ∷ []

    unfoldable pub run_case : Ran
    unfolding opening try_block clean_up clean_up_error
    run_case = elim world.mkdir_error [
      | some e ↦ (err (os_error e), [])
      | none ↦
          let (result, events) = try_block opening in
          (elim clean_up_error [ none ↦ result | some e ↦ err (os_error e) ], events ++ clean_up)
    ]
