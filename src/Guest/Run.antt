-- ===== src/Guest/Run.antt =====
-- `run_guest_operation` of src/engine/mod.rs from the recorded intent on, with
-- `save_guest_operation_with_mutation` of src/state/mod.rs. The state is the operation's file. What
-- the platform does is an argument: the outcome of the n-th write, the clock, whether the pinning of
-- the installation and of the runtime succeeds, and what the transport's action yields.
use vm_cell_manager.Prelude.{
  ℕ, String, Option, none, some, ◌!=◌, nat_eq, option_eq, is_some, if◌then◌else◌, Result, ok, err,
  ◌>>◌, reject_if,
}
use vm_cell_manager.Host.{Uuid, Host}
use vm_cell_manager.Cell.{CellRecord}
use vm_cell_manager.Engine.Errors.{
  EngineError, StateError, state, identity_mismatch, job_correlation_integrity,
}
use vm_cell_manager.Guest.{GuestOperationRecord, GuestOperationKind, intent_with_job}
use vm_cell_manager.Guest.Schema.{validate_guest_operation_schema, validate_operation_job_binding}
use vm_cell_manager.Guest.Changes.{
  GuestCompletion, activate, apply_completion, finish_artifact, finish, record_failure,
}

-- A write that succeeds, that fails before or after the checks of the record and leaves the file as
-- it was, or that fails once the file is replaced.
pub data WriteOutcome : Type 0 where
  written : WriteOutcome
  guard_refused write_failed unconfirmed : StateError → WriteOutcome

pub record RunEnv : Type 0 where
  pub disk : ℕ → WriteOutcome
  pub clock : ℕ → ℕ
  pub prepare : Result EngineError (Unit {0})
  pub act : Result EngineError GuestCompletion

abbrev pub Durable : Type 0
Durable = Option GuestOperationRecord

abbrev pub on_saved :
    {A : Type 0}
    → Durable × Result StateError (Unit {0})
    → (Durable → Durable × Result EngineError A)
    → (EngineError → Durable → Durable × Result EngineError A)
    → Durable × Result EngineError A
on_saved (d, ok _) next failed = next d
on_saved (d, err e) next failed = failed (state e) d

-- `?` on a write.
abbrev pub give_up : {A : Type 0} → EngineError → Durable → Durable × Result EngineError A
give_up e d = (d, err e)

module _ (host : Host) (file_stem : Uuid → Option String) (cell : CellRecord) where
  -- `load_guest_operation` within a save, and the test of what it finds.
  unfoldable pub check_existing : GuestOperationRecord → Durable → Result StateError (Unit {0})
  check_existing r none = ok tt
  check_existing r (some existing) = do
    validate_guest_operation_schema host (file_stem r.id) existing
    reject_if (existing.id != r.id) identity_mismatch
    validate_operation_job_binding cell existing
    reject_if (existing.job_id != r.job_id) job_correlation_integrity

  -- The checks of `save_guest_operation_unchecked`.
  unfoldable pub check_write : GuestOperationRecord → Durable → Result StateError (Unit {0})
  check_write r d = do
    validate_guest_operation_schema host (file_stem r.id) r
    check_existing r d
    validate_operation_job_binding cell r

  abbrev pub write_checked :
      Result StateError (Unit {0})
      → WriteOutcome
      → GuestOperationRecord
      → Durable
      → Durable × Result StateError (Unit {0})
  write_checked _ (guard_refused e) r d = (d, err e)
  write_checked (err e) _ r d = (d, err e)
  write_checked (ok _) (write_failed e) r d = (d, err e)
  write_checked (ok _) (unconfirmed e) r d = (some r, err e)
  write_checked (ok _) written r d = (some r, ok tt)

  -- `save_guest_operation_with_mutation`
  unfoldable pub save_guest_operation :
      WriteOutcome → GuestOperationRecord → Durable → Durable × Result StateError (Unit {0})
  save_guest_operation outcome r d = write_checked (check_write r d) outcome r d

  module _ (env : RunEnv) where
    -- The `Err` arm.
    unfoldable pub fail_run :
        GuestOperationRecord → EngineError → Durable → Durable × Result EngineError GuestCompletion
    fail_run r e d =
        on_saved (save_guest_operation (env.disk 3) (record_failure e (env.clock 2) r) d)
          (λ saved. (saved, err e)) give_up

    -- The `Ok` arm for a completion with an artifact, and for one without.
    unfoldable pub commit_run :
        GuestOperationRecord
        → GuestCompletion
        → Durable
        → Durable × Result EngineError GuestCompletion
    commit_run r done d =
        on_saved (save_guest_operation (env.disk 2) r d)
          (λ committed.
            on_saved (save_guest_operation (env.disk 3) (finish_artifact (env.clock 3) r) committed)
              (λ saved. (saved, ok done)) give_up)
          give_up

    unfoldable pub close_run :
        GuestOperationRecord
        → GuestCompletion
        → Durable
        → Durable × Result EngineError GuestCompletion
    close_run r done d =
        on_saved (save_guest_operation (env.disk 2) (finish r) d) (λ saved. (saved, ok done))
          give_up

    unfoldable pub complete_run :
        GuestOperationRecord
        → GuestCompletion
        → Durable
        → Durable × Result EngineError GuestCompletion
    complete_run r done d =
        let r2 = apply_completion done (env.clock 2) r in
        if is_some done.artifact_id then commit_run r2 done d else close_run r2 done d

    abbrev pub end_run :
        Result EngineError GuestCompletion
        → GuestOperationRecord
        → Durable
        → Durable × Result EngineError GuestCompletion
    end_run (err e) r d = fail_run r e d
    end_run (ok done) r d = complete_run r done d

    abbrev pub start_run :
        Result EngineError (Unit {0})
        → GuestOperationRecord
        → Durable
        → Durable × Result EngineError GuestCompletion
    start_run (err e) r d = fail_run r e d
    start_run (ok _) r d =
        let r1 = activate (env.clock 1) r in
        on_saved (save_guest_operation (env.disk 1) r1 d) (λ saved. end_run env.act r1 saved)
          (λ e failed. fail_run r1 e failed)

    -- From the recorded intent on, for the fresh operation `id`.
    unfoldable pub run_recorded :
        Uuid → GuestOperationKind → Option Uuid → Durable × Result EngineError GuestCompletion
    run_recorded id kind job_id =
        let r = intent_with_job id cell.id kind (env.clock 0) job_id in
        on_saved (save_guest_operation (env.disk 0) r none) (λ saved. start_run env.prepare r saved)
          give_up
