-- ===== src/Guest/Schema.antt =====
-- The schema that src/state/mod.rs checks on every read and write of a guest operation and of an
-- artifact manifest, and their bindings to the cell and to each other. `stem` is what
-- `Path::file_stem` gives for the file.
use vm_cell_manager.Prelude.{
  ℕ, String, Bool, true, false, not, Option, none, some, List, [], ◌∷◌, ◌==◌, ◌!=◌, ◌&&◌, ◌||◌, ◌+◌,
  ◌^◌, nat_eq, string_eq, option_eq, ltb, leb, length, any, contains, is_empty, is_none, is_some,
  if◌then◌else◌, Result, ok, ◌>>◌, reject_if,
}
use vm_cell_manager.Host.{Uuid, Host}
use vm_cell_manager.Cell.{CellRecord}
use vm_cell_manager.Engine.Errors.{
  StateError, unsupported_schema, identity_mismatch, guest_operation_integrity,
  job_correlation_integrity, artifact_integrity,
}
use vm_cell_manager.Guest.{
  GuestOperationRecord, GuestOperationPhase, intent_recorded, transport_active, artifact_committed,
  completed, failed, GuestOperationKind, copy_out, artifact_collect, unknown, failure_class_eq,
  guest_operation_schema_version, job_correlated_guest_operation_schema_version, ArtifactRecord,
  ArtifactEntry, artifact_schema_version, job_correlated_artifact_schema_version,
  max_artifact_files, max_artifact_file_bytes, max_artifact_total_bytes,
}

-- `is_none_or(p)` and `is_some_and(p)`
abbrev pub is_none_or : {A : Type 0} → (A → Bool) → Option A → Bool
is_none_or p none = true
is_none_or p (some a) = p a

abbrev pub is_some_and : {A : Type 0} → (A → Bool) → Option A → Bool
is_some_and p none = false
is_some_and p (some a) = p a

-- The kinds that yield an artifact.
unfoldable pub makes_artifact : GuestOperationKind → Bool
makes_artifact copy_out = true
makes_artifact artifact_collect = true
makes_artifact _ = false

-- A version the program reads, with a job exactly in the second one.
unfoldable pub correlation_is_valid : ℕ → Option Uuid → Bool
correlation_is_valid version none = version == guest_operation_schema_version
correlation_is_valid version (some _) = version == job_correlated_guest_operation_schema_version

abbrev pub no_output : GuestOperationRecord → Bool
no_output r = is_none r.exit_code && (is_none r.stdout_bytes && is_none r.stderr_bytes)

-- What a completed operation's tombstone asks for.
abbrev pub pruned_is_valid : GuestOperationRecord → Bool
pruned_is_valid r = r.artifact_id == some r.id && (makes_artifact r.kind && no_output r)

-- The `match` on the phase.
abbrev pub fields_in : GuestOperationPhase → GuestOperationRecord → Bool
fields_in intent_recorded r =
    is_none r.completed_at
    && (is_none r.failure
        && (is_none r.artifact_id && (is_none r.artifact_pruned_at && no_output r)))
fields_in transport_active r =
    is_none r.completed_at
    && (is_none r.artifact_id && (is_none r.artifact_pruned_at && no_output r))
fields_in artifact_committed r =
    is_none r.completed_at
    && (is_none r.failure
        && (r.artifact_id == some r.id
            && (makes_artifact r.kind && (is_none r.artifact_pruned_at && no_output r))))
fields_in completed r =
    is_some r.completed_at
    && (is_none r.failure
        && (is_none_or (λ artifact_id. artifact_id == r.id) r.artifact_id
            && (is_none_or (λ _. makes_artifact r.kind) r.artifact_id
                && is_none_or (λ _. pruned_is_valid r) r.artifact_pruned_at)))
fields_in failed r =
    is_some r.completed_at
    && (is_some_and (λ failure. failure != unknown) r.failure
        && (is_none r.artifact_id && (is_none r.artifact_pruned_at && no_output r)))

unfoldable pub fields_are_valid : GuestOperationRecord → Bool
unfolding makes_artifact
fields_are_valid r = fields_in r.phase r

-- The times that make a record inconsistent.
abbrev pub end_is_invalid : Option ℕ → ℕ → Option ℕ → Bool
end_is_invalid (some pruned_at) updated_at completed_at =
    is_none_or (λ end_at. ltb pruned_at end_at) completed_at || pruned_at != updated_at
end_is_invalid none updated_at completed_at =
    is_some_and (λ end_at. end_at != updated_at) completed_at

unfoldable pub times_are_invalid : GuestOperationRecord → Bool
times_are_invalid r =
    ltb r.updated_at r.created_at
    || (is_some_and (λ end_at. ltb end_at r.created_at) r.completed_at
        || end_is_invalid r.artifact_pruned_at r.updated_at r.completed_at)

-- `ensure_schema_one_of` for a guest operation record.
unfoldable pub version_is_known : ℕ → Bool
version_is_known version =
    contains (guest_operation_schema_version ∷ job_correlated_guest_operation_schema_version ∷ [])
      version

module _ (host : Host) where
  unfoldable pub validate_guest_operation_schema :
      Option String → GuestOperationRecord → Result StateError (Unit {0})
  validate_guest_operation_schema stem r = do
    reject_if (not (version_is_known r.schema_version)) unsupported_schema
    reject_if (stem != some (host.uuid_text r.id)) identity_mismatch
    reject_if (not (correlation_is_valid r.schema_version r.job_id)) job_correlation_integrity
    reject_if (not (fields_are_valid r) || times_are_invalid r) guest_operation_integrity

-- `validate_operation_job_binding`
unfoldable pub validate_operation_job_binding :
    CellRecord → GuestOperationRecord → Result StateError (Unit {0})
validate_operation_job_binding cell operation = elim operation.job_id [
  | none ↦ ok tt
  | some job_id ↦
      reject_if (elim cell.job [ none ↦ true | some job ↦ job.job_id != job_id ])
        job_correlation_integrity
]

-- `validate_artifact_job_binding`
unfoldable pub validate_artifact_job_binding :
    GuestOperationRecord → ArtifactRecord → Result StateError (Unit {0})
validate_artifact_job_binding operation artifact = do
  reject_if (artifact.cell_id != operation.cell_id) job_correlation_integrity
  reject_if (artifact.job_id != operation.job_id) job_correlation_integrity

-- `try_fold` with `u64::checked_add`: none on overflow.
unfoldable pub checked_total : ℕ → List ArtifactEntry → Option ℕ
checked_total total [] = some total
checked_total total (entry ∷ entries) =
    let rest = checked_total (total + entry.size) entries in
    if ltb (total + entry.size) (2 ^ 64) then rest else none

unfoldable pub artifact_correlation_is_valid : ℕ → Option Uuid → Bool
artifact_correlation_is_valid version none = version == artifact_schema_version
artifact_correlation_is_valid version (some _) = version == job_correlated_artifact_schema_version

abbrev pub total_is_valid : Option ℕ → Bool
total_is_valid none = false
total_is_valid (some total) = leb total max_artifact_total_bytes

-- `ensure_schema_one_of` for an artifact record.
unfoldable pub artifact_version_is_known : ℕ → Bool
artifact_version_is_known version =
    contains (artifact_schema_version ∷ job_correlated_artifact_schema_version ∷ []) version

unfoldable pub validate_artifact_schema : ArtifactRecord → Result StateError (Unit {0})
validate_artifact_schema r = do
  reject_if (not (artifact_version_is_known r.schema_version)) unsupported_schema
  reject_if (not (artifact_correlation_is_valid r.schema_version r.job_id))
      job_correlation_integrity
  reject_if (is_empty r.entries || ltb max_artifact_files (length r.entries)) artifact_integrity
  reject_if (any (λ entry. ltb max_artifact_file_bytes entry.size) r.entries) artifact_integrity
  reject_if (not (total_is_valid (checked_total 0 r.entries))) artifact_integrity
