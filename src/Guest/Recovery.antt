-- ===== src/Guest/Recovery.antt =====
-- `reconcile_guest_operation` of src/engine/mod.rs, with `load_guest_operation` and the check of the
-- parent cell of src/state/mod.rs. The file is read twice, before and under the mutation lock, and
-- another process may have written it in between; the platform's answers are arguments.
pub mod Reported
pub mod Settled
use vm_cell_manager.Prelude.{
  ℕ, suc, String, Bool, true, false, Option, none, some, ◌!=◌, nat_eq, Result, ok, err, ◌>>=◌, ◌>>◌,
  reject_if, map_err,
}
use vm_cell_manager.Host.{Uuid, Host}
use vm_cell_manager.Cell.{CellRecord}
use vm_cell_manager.Engine.Errors.{
  EngineError, StateError, state, integrity, not_found, identity_mismatch,
  job_correlation_integrity,
}
use vm_cell_manager.Guest.{
  GuestOperationRecord, GuestOperationPhase, intent_recorded, transport_active, artifact_committed,
  completed, failed, ArtifactRecord,
}
use vm_cell_manager.Guest.Schema.{validate_guest_operation_schema, validate_operation_job_binding}
use vm_cell_manager.Guest.Changes.{interrupt, finish_artifact}
use vm_cell_manager.Guest.Run.{WriteOutcome, Durable, save_guest_operation}

pub data Disposition : Type 0 where
  already_terminal interrupted_before_transport artifact_completion_recovered : Disposition
  recovery_required : Disposition

pub data RequiredAction : Type 0 where
  no_action retry_lifecycle recovery_required manual_review : RequiredAction

pub record RecoveryReport : Type 0 where
  pub operation : GuestOperationRecord
  pub disposition : Disposition
  pub required_action : RequiredAction
  pub changed : Bool

-- The last `match` on the disposition.
unfoldable pub action_for : Disposition → RequiredAction
action_for Disposition.recovery_required = manual_review
action_for _ = no_action

unfoldable pub report_of : GuestOperationRecord → Disposition → Bool → RecoveryReport
report_of r d changed = record {
  operation = r;
  disposition = d;
  required_action = action_for d;
  changed = changed;
}

-- What the platform answers: the parent cell at each load of it, the lock, the artifact's manifest, the time, the write.
pub record RecoveryEnv : Type 0 where
  pub load_cell : ℕ → Uuid → Result StateError CellRecord
  pub lock : Result StateError (Unit {0})
  pub load_artifact : Uuid → Uuid → Result StateError ArtifactRecord
  pub now : ℕ
  pub disk : WriteOutcome

-- `validate_operation_parent_binding` on the answer for the parent cell.
unfoldable pub parent_for_read :
    Result StateError CellRecord → GuestOperationRecord → Result StateError (Unit {0})
parent_for_read (ok cell) r = validate_operation_job_binding cell r
parent_for_read (err not_found) r = elim r.job_id [
  | none ↦ ok tt
  | some _ ↦ err job_correlation_integrity
]
parent_for_read (err e) r = err e

-- `validate_operation_parent_binding_for_write`, with the cell that it finds.
unfoldable pub parent_for_write :
    Result StateError CellRecord → GuestOperationRecord → Result StateError CellRecord
parent_for_write (ok cell) r = do validate_operation_job_binding cell r; ok cell
parent_for_write (err not_found) r = err job_correlation_integrity
parent_for_write (err e) r = err e

module _ (host : Host) (file_stem : Uuid → Option String) (env : RecoveryEnv) (id : Uuid) where
  -- `load_guest_operation`, whose load of the parent is the n-th.
  unfoldable pub load_guest_operation : ℕ → Durable → Result StateError GuestOperationRecord
  load_guest_operation n none = err not_found
  load_guest_operation n (some r) = do
    validate_guest_operation_schema host (file_stem id) r
    reject_if (r.id != id) identity_mismatch
    parent_for_read (env.load_cell n r.cell_id) r
    ok r

  -- The load and `require_guest_operation_parent_for_mutation`.
  unfoldable pub load_with_parent :
      ℕ → Durable → Result StateError (GuestOperationRecord × CellRecord)
  load_with_parent n d = do
    r ← load_guest_operation n d
    cell ← parent_for_write (env.load_cell (suc n) r.cell_id) r
    ok (r, cell)

  abbrev pub saved_report :
      Durable × Result StateError (Unit {0})
      → GuestOperationRecord
      → Disposition
      → Durable × Result EngineError RecoveryReport
  saved_report (d, ok _) r disposition = (d, ok (report_of r disposition true))
  saved_report (d, err e) r disposition = (d, err (state e))

  -- The guards on a committed artifact.
  unfoldable pub check_artifact : GuestOperationRecord → Result EngineError (Unit {0})
  check_artifact r = do
    artifact_id ← elim r.artifact_id [ none ↦ err integrity | some a ↦ ok a ]
    reject_if (artifact_id != r.id) integrity
    artifact ← map_err state (env.load_artifact r.cell_id artifact_id)
    ok tt

  unfoldable pub recover_artifact :
      Result EngineError (Unit {0})
      → CellRecord
      → GuestOperationRecord
      → Durable
      → Durable × Result EngineError RecoveryReport
  recover_artifact (err e) cell r d = (d, err e)
  recover_artifact (ok _) cell r d =
      saved_report (save_guest_operation host file_stem cell env.disk (finish_artifact env.now r) d)
        (finish_artifact env.now r) artifact_completion_recovered

  -- The `match` under the lock.
  unfoldable pub settle :
      GuestOperationPhase
      → CellRecord
      → GuestOperationRecord
      → Durable
      → Durable × Result EngineError RecoveryReport
  settle completed cell r d = (d, ok (report_of r already_terminal false))
  settle failed cell r d = (d, ok (report_of r already_terminal false))
  settle transport_active cell r d = (d, ok (report_of r Disposition.recovery_required false))
  settle intent_recorded cell r d =
      saved_report (save_guest_operation host file_stem cell env.disk (interrupt env.now r) d)
        (interrupt env.now r) interrupted_before_transport
  settle artifact_committed cell r d = recover_artifact (check_artifact r) cell r d

  abbrev pub settle_loaded :
      Result StateError (GuestOperationRecord × CellRecord)
      → Durable
      → Durable × Result EngineError RecoveryReport
  settle_loaded (err e) d = (d, err (state e))
  settle_loaded (ok (r, cell)) d = settle r.phase cell r d

  abbrev pub settle_locked :
      Result StateError (Unit {0}) → Durable → Durable × Result EngineError RecoveryReport
  settle_locked (err e) d = (d, err (state e))
  settle_locked (ok _) d = settle_loaded (load_with_parent 2 d) d

  -- The `match` before the lock: `locked` is the file under it.
  unfoldable pub triage :
      GuestOperationPhase
      → GuestOperationRecord
      → Durable
      → Durable
      → Durable × Result EngineError RecoveryReport
  triage completed r d locked = (d, ok (report_of r already_terminal false))
  triage failed r d locked = (d, ok (report_of r already_terminal false))
  triage transport_active r d locked = (d, ok (report_of r Disposition.recovery_required false))
  triage _ r d locked = settle_locked env.lock locked

  abbrev pub triage_loaded :
      Result StateError (GuestOperationRecord × CellRecord)
      → Durable
      → Durable
      → Durable × Result EngineError RecoveryReport
  triage_loaded (err e) d locked = (d, err (state e))
  triage_loaded (ok (r, _)) d locked = triage r.phase r d locked

  unfoldable pub reconcile_guest_operation :
      Durable → Durable → Durable × Result EngineError RecoveryReport
  reconcile_guest_operation d locked = triage_loaded (load_with_parent 0 d) d locked
