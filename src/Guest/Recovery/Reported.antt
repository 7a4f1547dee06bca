-- ===== src/Guest/Recovery/Reported.antt =====
-- What a report of `reconcile_guest_operation` in src/engine/mod.rs means.
use vm_cell_manager.Prelude.{ℕ, ◌⊎◌, true, false, ◌≡◌, nat_eq, refl, some}
use vm_cell_manager.Host.{Uuid}
use vm_cell_manager.Guest.{
  GuestOperationRecord, GuestFailureClass, intent_recorded, transport_active, artifact_committed,
  completed, failed, is_terminal,
}
use vm_cell_manager.Guest.Changes.{interrupt, finish_artifact}
use vm_cell_manager.Guest.Run.{Durable}
use vm_cell_manager.Guest.Recovery.{
  Disposition, already_terminal, interrupted_before_transport, artifact_completion_recovered,
  RecoveryReport, report_of,
}

-- What a change leaves as it was.
pub record Same (r changed : GuestOperationRecord) : Type 0 where
  pub id : changed.id ≡ r.id
  pub cell_id : changed.cell_id ≡ r.cell_id
  pub kind : changed.kind ≡ r.kind
  pub job_id : changed.job_id ≡ r.job_id
  pub created_at : changed.created_at ≡ r.created_at
  pub artifact_id : changed.artifact_id ≡ r.artifact_id

-- What a report on the operation `id` means. `before` and `locked` are the file before the lock and
-- under it, `after` the file at the end.
pub data IsSettled (id : Uuid) (before locked : Durable) : Durable → RecoveryReport → Type 0 where
  over :
      {after : Durable} {report : RecoveryReport}
      → (after ≡ before) ⊎ (after ≡ locked)
      → after ≡ some report.operation
      → report.operation.id ≡ id
      → is_terminal report.operation.phase ≡ true
      → report.disposition ≡ already_terminal
      → report.changed ≡ false
      → IsSettled id before locked after report
  in_transport :
      {after : Durable} {report : RecoveryReport}
      → (after ≡ before) ⊎ (after ≡ locked)
      → after ≡ some report.operation
      → report.operation.id ≡ id
      → report.operation.phase ≡ transport_active
      → report.disposition ≡ Disposition.recovery_required
      → report.changed ≡ false
      → IsSettled id before locked after report
  interrupted :
      {after : Durable} {report : RecoveryReport} (r : GuestOperationRecord)
      → locked ≡ some r
      → r.id ≡ id
      → r.phase ≡ intent_recorded
      → after ≡ some report.operation
      → Same r report.operation
      → (report.operation.phase ≡ failed)
        × (report.operation.failure ≡ some GuestFailureClass.interrupted)
        × (report.operation.completed_at ≡ some report.operation.updated_at)
      → report.disposition ≡ interrupted_before_transport
      → report.changed ≡ true
      → IsSettled id before locked after report
  recovered :
      {after : Durable} {report : RecoveryReport} (r : GuestOperationRecord)
      → locked ≡ some r
      → r.id ≡ id
      → r.phase ≡ artifact_committed
      → after ≡ some report.operation
      → Same r report.operation
      → (report.operation.phase ≡ completed)
        × (report.operation.failure ≡ r.failure)
        × (report.operation.completed_at ≡ some report.operation.updated_at)
      → report.disposition ≡ artifact_completion_recovered
      → report.changed ≡ true
      → IsSettled id before locked after report

module _ {id : Uuid} {before locked : Durable} where
  pub over_reported :
      {after : Durable} {report : RecoveryReport} (r : GuestOperationRecord)
      → (after ≡ before) ⊎ (after ≡ locked)
      → after ≡ some r
      → r.id ≡ id
      → is_terminal r.phase ≡ true
      → report ≡ report_of r already_terminal false
      → IsSettled id before locked after report
  unfolding report_of
  over_reported r o p i t q = rw q (over o p i t refl refl)

  pub review_reported :
      {after : Durable} {report : RecoveryReport} (r : GuestOperationRecord)
      → (after ≡ before) ⊎ (after ≡ locked)
      → after ≡ some r
      → r.id ≡ id
      → r.phase ≡ transport_active
      → report ≡ report_of r Disposition.recovery_required false
      → IsSettled id before locked after report
  unfolding report_of
  review_reported r o p i t q = rw q (in_transport o p i t refl refl)

  pub interrupt_reported :
      {after : Durable} {report : RecoveryReport} (now : ℕ) (r : GuestOperationRecord)
      → locked ≡ some r
      → r.id ≡ id
      → r.phase ≡ intent_recorded
      → after ≡ some (interrupt now r)
      → report ≡ report_of (interrupt now r) interrupted_before_transport true
      → IsSettled id before locked after report
  unfolding report_of interrupt
  interrupt_reported now r l i t p q = rw q (
      interrupted r l i t p
        (record {
          id = refl;
          cell_id = refl;
          kind = refl;
          job_id = refl;
          created_at = refl;
          artifact_id = refl;
        })
        (refl, refl, refl) refl refl)

  pub recover_reported :
      {after : Durable} {report : RecoveryReport} (now : ℕ) (r : GuestOperationRecord)
      → locked ≡ some r
      → r.id ≡ id
      → r.phase ≡ artifact_committed
      → after ≡ some (finish_artifact now r)
      → report ≡ report_of (finish_artifact now r) artifact_completion_recovered true
      → IsSettled id before locked after report
  unfolding report_of finish_artifact
  recover_reported now r l i t p q = rw q (
      recovered r l i t p
        (record {
          id = refl;
          cell_id = refl;
          kind = refl;
          job_id = refl;
          created_at = refl;
          artifact_id = refl;
        })
        (refl, refl, refl) refl refl)
