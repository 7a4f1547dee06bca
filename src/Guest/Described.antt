-- ===== src/Guest/Described.antt =====
-- What the schema check of a guest operation in src/state/mod.rs accepts, described without its code.
use vm_cell_manager.Prelude.{
  ℕ, String, true, false, ◌≡◌, ◌≢◌, ◌↔◌, ◌⊎◌, ◌≤◌, refl, Option, none, some, nat_eq, nat-discrete,
  option_eq, ok, arith, ltb, not_of_eq, false_or,
}
use vm_cell_manager.Host.{Uuid, Host}
use vm_cell_manager.Guest.{
  GuestOperationRecord, GuestOperationPhase, GuestOperationKind, intent_recorded, transport_active,
  artifact_committed, completed, failed, copy_out, artifact_collect, unknown,
  GuestFailureClass-discrete,
}
use vm_cell_manager.Guest.Schema.{
  validate_guest_operation_schema, correlation_is_valid, fields_are_valid, fields_in,
  times_are_invalid, makes_artifact, end_is_invalid, is_some_and,
}
use vm_cell_manager.Guest.Changes.{IsConsistent}
use vm_cell_manager.Guest.Saved.{validate_guest_operation_schema_lem}

-- Version 1 is for an operation without a job, version 2 for one with.
pub CorrelationFits : ℕ → Option Uuid → Type 0
CorrelationFits version none = version ≡ 1
CorrelationFits version (some _) = version ≡ 2

pub HasNoOutput : GuestOperationRecord → Type 0
HasNoOutput r = (r.exit_code ≡ none) × (r.stdout_bytes ≡ none) × (r.stderr_bytes ≡ none)

pub IsCopy : GuestOperationKind → Type 0
IsCopy kind = (kind ≡ copy_out) ⊎ (kind ≡ artifact_collect)

-- A completed operation has no artifact, or its own, of a kind that copies out of the guest; only
-- such an artifact, without output, may have been pruned.
pub Collected : GuestOperationRecord → Type 0
Collected r =
    ((r.artifact_id ≡ none) × (r.artifact_pruned_at ≡ none))
    ⊎ ((r.artifact_id ≡ some r.id)
        × IsCopy r.kind
        × ((r.artifact_pruned_at ≡ none) ⊎ HasNoOutput r))

-- The fields that each phase allows.
pub FieldsFit : GuestOperationPhase → GuestOperationRecord → Type 0
FieldsFit intent_recorded r =
    (r.completed_at ≡ none)
    × (r.failure ≡ none)
    × (r.artifact_id ≡ none)
    × (r.artifact_pruned_at ≡ none)
    × HasNoOutput r
FieldsFit transport_active r =
    (r.completed_at ≡ none) × (r.artifact_id ≡ none) × (r.artifact_pruned_at ≡ none) × HasNoOutput r
FieldsFit artifact_committed r =
    (r.completed_at ≡ none)
    × (r.failure ≡ none)
    × (r.artifact_id ≡ some r.id)
    × IsCopy r.kind
    × (r.artifact_pruned_at ≡ none)
    × HasNoOutput r
FieldsFit completed r = (r.completed_at ≢ none) × (r.failure ≡ none) × Collected r
FieldsFit failed r =
    (r.completed_at ≢ none)
    × (r.failure ≢ none)
    × (r.failure ≢ some unknown)
    × (r.artifact_id ≡ none)
    × (r.artifact_pruned_at ≡ none)
    × HasNoOutput r

-- The end and the last update agree, or the pruning came last, after an end.
pub EndFits : (pruned_at : Option ℕ) (completed_at : Option ℕ) → ℕ → Type 0
EndFits none none updated_at = Unit {0}
EndFits none (some end_at) updated_at = end_at ≡ updated_at
EndFits (some pruned_at) none updated_at = ⊥
EndFits (some pruned_at) (some end_at) updated_at = (end_at ≤ pruned_at) × (pruned_at ≡ updated_at)

pub IsAfter : ℕ → Option ℕ → Type 0
IsAfter created_at none = Unit {0}
IsAfter created_at (some end_at) = created_at ≤ end_at

pub TimesFit : GuestOperationRecord → Type 0
TimesFit r =
    (r.created_at ≤ r.updated_at)
    × IsAfter r.created_at r.completed_at
    × EndFits r.artifact_pruned_at r.completed_at r.updated_at

pub record IsDescribed (host : Host) (stem : Option String) (r : GuestOperationRecord)
    : Type 0 where
  pub file : stem ≡ some (host.uuid_text r.id)
  pub correlation : CorrelationFits r.schema_version r.job_id
  pub fields : FieldsFit r.phase r
  pub times : TimesFit r

correlation_iff :
    (version : ℕ) (job_id : Option Uuid)
    → (correlation_is_valid version job_id ≡ true) ↔ CorrelationFits version job_id
unfolding correlation_is_valid CorrelationFits
correlation_iff version none = ground arith
correlation_iff version (some _) = ground arith

copies_iff : (kind : GuestOperationKind) → (makes_artifact kind ≡ true) ↔ IsCopy kind
unfolding makes_artifact IsCopy
copies_iff kind = ground arith

fields_fit :
    (p : GuestOperationPhase) (r : GuestOperationRecord) → fields_in p r ≡ true → FieldsFit p r
unfolding makes_artifact FieldsFit HasNoOutput IsCopy Collected GuestFailureClass-discrete
fields_fit intent_recorded r h = ground arith
fields_fit transport_active r h = ground arith
fields_fit artifact_committed r h = ground arith
fields_fit completed r h = ground arith
fields_fit failed r h = ground arith

fit_fields :
    (p : GuestOperationPhase) (r : GuestOperationRecord) → FieldsFit p r → fields_in p r ≡ true
unfolding makes_artifact FieldsFit HasNoOutput IsCopy Collected GuestFailureClass-discrete
fit_fields intent_recorded r h = ground arith
fit_fields transport_active r h = ground arith
fit_fields artifact_committed r h = ground arith
fit_fields completed r h = ground arith
fit_fields failed r h = ground arith

times_fit : (r : GuestOperationRecord) → times_are_invalid r ≡ false → TimesFit r
unfolding times_are_invalid TimesFit IsAfter EndFits
times_fit r h = ground arith

not_before : (a b : ℕ) → b ≤ a → ltb a b ≡ false
not_before a b h = ground arith

fit_end :
    (pruned_at completed_at : Option ℕ) (updated_at : ℕ)
    → EndFits pruned_at completed_at updated_at
    → end_is_invalid pruned_at updated_at completed_at ≡ false
unfolding EndFits nat-discrete
fit_end none none updated_at h = refl
fit_end none (some end_at) updated_at h = not_of_eq h
fit_end (some pruned_at) none updated_at h = absurd h
fit_end (some pruned_at) (some end_at) updated_at h =
    false_or (not_before pruned_at end_at h.0) (not_of_eq h.1)

fit_after :
    (created_at : ℕ) (completed_at : Option ℕ)
    → IsAfter created_at completed_at
    → is_some_and (λ end_at. ltb end_at created_at) completed_at ≡ false
unfolding IsAfter
fit_after created_at none h = refl
fit_after created_at (some end_at) h = not_before end_at created_at h

fit_times : (r : GuestOperationRecord) → TimesFit r → times_are_invalid r ≡ false
unfolding times_are_invalid TimesFit
fit_times r (c, e, p) = false_or (not_before r.updated_at r.created_at c) (
    false_or (fit_after r.created_at r.completed_at e)
      (fit_end r.artifact_pruned_at r.completed_at r.updated_at p))

-- The schema check of a guest operation succeeds exactly on the records that lie in their own
-- file, have a job in the second schema version and none in the first, have the fields of their
-- phase, and whose times are in order.
pub validate_guest_operation_schema_iff :
    (host : Host) (stem : Option String) (r : GuestOperationRecord)
    → (validate_guest_operation_schema host stem r ≡ ok tt) ↔ IsDescribed host stem r
unfolding IsConsistent fields_are_valid
validate_guest_operation_schema_iff host stem r = (
  λ h.
      let s = (validate_guest_operation_schema_lem host stem r).0 h in
      record {
        file = s.file;
        correlation = (correlation_iff r.schema_version r.job_id).0 s.correlation;
        fields = fields_fit r.phase r s.consistent.0;
        times = times_fit r s.consistent.1;
      },
  λ d. (validate_guest_operation_schema_lem host stem r).1 (record {
    file = d.file;
    correlation = (correlation_iff r.schema_version r.job_id).1 d.correlation;
    consistent = (fit_fields r.phase r d.fields, fit_times r d.times);
  }),
)
