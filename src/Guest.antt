-- ===== src/Guest.antt =====
-- src/core/guest.rs: the durable record of a guest operation and of its artifacts. Artifact ids are
-- operation ids. Exit codes are 32-bit integers that nothing computes with, and stand here as
-- numbers.
pub mod Schema
pub mod Changes
pub mod Run
pub mod Recovery
pub mod Artifacts
pub mod Saved
pub mod Described
pub mod Outcome
pub mod Delivered
mod Tests
use vm_cell_manager.Prelude.{ℕ, String, Bool, true, false, Option, none, some, List, Eq}
use vm_cell_manager.Host.{Uuid}
use vm_cell_manager.Cell.{CellId}
use vm_cell_manager.Engine.Errors.{
  EngineError, ownership_not_proven, provider_drift, GuestIoError, guest, invalid_request,
  authentication_failed, session_failed, invalid_response,
}

abbrev pub guest_operation_schema_version : ℕ
guest_operation_schema_version = 1

abbrev pub job_correlated_guest_operation_schema_version : ℕ
job_correlated_guest_operation_schema_version = 2

abbrev pub artifact_schema_version : ℕ
artifact_schema_version = 1

abbrev pub job_correlated_artifact_schema_version : ℕ
job_correlated_artifact_schema_version = 2

abbrev pub max_artifact_files : ℕ
max_artifact_files = 16

abbrev pub max_artifact_file_bytes : ℕ
max_artifact_file_bytes = 67108864

abbrev pub max_artifact_total_bytes : ℕ
max_artifact_total_bytes = 1073741824

pub data GuestOperationKind : Type 0 where
  exec copy_in copy_out artifact_collect : GuestOperationKind

pub data GuestOperationPhase : Type 0 where
  intent_recorded transport_active artifact_committed completed failed : GuestOperationPhase

-- `GuestOperationPhase::is_terminal`
unfoldable pub is_terminal : GuestOperationPhase → Bool
is_terminal completed = true
is_terminal failed = true
is_terminal _ = false

pub data GuestFailureClass : Type 0 where
  interrupted guest_not_ready authentication session timeout output_limit : GuestFailureClass
  invalid_encoding path_violation partial_copy ownership_changed unknown : GuestFailureClass

unfoldable pub GuestFailureClass-discrete : Discrete GuestFailureClass
GuestFailureClass-discrete = hlevel

instance abbrev pub failure_class_eq : Eq GuestFailureClass
failure_class_eq = record { dec = GuestFailureClass-discrete }

pub record GuestOperationRecord : Type 0 where
  pub schema_version : ℕ
  pub id : Uuid
  pub cell_id : CellId
  pub kind : GuestOperationKind
  pub phase : GuestOperationPhase
  pub created_at : ℕ
  pub updated_at : ℕ
  pub completed_at : Option ℕ
  pub failure : Option GuestFailureClass
  pub exit_code : Option ℕ
  pub stdout_bytes : Option ℕ
  pub stderr_bytes : Option ℕ
  pub artifact_id : Option Uuid
  pub artifact_pruned_at : Option ℕ
  pub job_id : Option Uuid

-- `GuestOperationRecord::schema_version_for_job`
unfoldable pub operation_schema_version : Option Uuid → ℕ
operation_schema_version none = guest_operation_schema_version
operation_schema_version (some _) = job_correlated_guest_operation_schema_version

-- `GuestOperationRecord::intent_with_job`; `id` is the fresh one.
unfoldable pub intent_with_job :
    Uuid → CellId → GuestOperationKind → ℕ → Option Uuid → GuestOperationRecord
unfolding operation_schema_version
intent_with_job id cell_id kind now job_id = record {
  schema_version = operation_schema_version job_id;
  id = id;
  cell_id = cell_id;
  kind = kind;
  phase = intent_recorded;
  created_at = now;
  updated_at = now;
  completed_at = none;
  failure = none;
  exit_code = none;
  stdout_bytes = none;
  stderr_bytes = none;
  artifact_id = none;
  artifact_pruned_at = none;
  job_id = job_id;
}

pub record ArtifactEntry : Type 0 where
  pub guest_path : String
  pub host_relative_path : String
  pub sha256 : String
  pub size : ℕ

pub record ArtifactRecord : Type 0 where
  pub schema_version : ℕ
  pub id : Uuid
  pub cell_id : CellId
  pub created_at : ℕ
  pub entries : List ArtifactEntry
  pub job_id : Option Uuid

-- `guest_failure_class` of src/engine/mod.rs: the class, and whether the failure is final.
unfoldable pub guest_failure_class : EngineError → GuestFailureClass × Bool
guest_failure_class (guest GuestIoError.guest_not_ready) = (GuestFailureClass.guest_not_ready, true)
guest_failure_class (guest authentication_failed) = (authentication, true)
guest_failure_class (guest session_failed) = (session, true)
guest_failure_class (guest GuestIoError.ownership_changed) =
    (GuestFailureClass.ownership_changed, true)
guest_failure_class ownership_not_proven = (GuestFailureClass.ownership_changed, true)
guest_failure_class provider_drift = (GuestFailureClass.ownership_changed, true)
guest_failure_class (guest GuestIoError.path_violation) = (GuestFailureClass.path_violation, true)
guest_failure_class (guest invalid_request) = (GuestFailureClass.path_violation, true)
guest_failure_class (guest GuestIoError.timeout) = (GuestFailureClass.timeout, false)
guest_failure_class (guest GuestIoError.output_limit) = (GuestFailureClass.output_limit, false)
guest_failure_class (guest GuestIoError.partial_copy) = (GuestFailureClass.partial_copy, false)
guest_failure_class (guest invalid_response) = (invalid_encoding, false)
guest_failure_class _ = (unknown, false)
