-- ===== src/Guest/Changes.antt =====
-- The changes that src/engine/mod.rs makes to the record of a guest operation, against its durable
-- schema.
use vm_cell_manager.Prelude.{
  ℕ, Bool, true, false, ◌≡◌, Option, none, some, nat_eq, option_eq, ◌≤◌, is_some, if◌then◌else◌,
  arith,
}
use vm_cell_manager.Host.{Uuid}
use vm_cell_manager.Engine.Errors.{EngineError}
use vm_cell_manager.Guest.{
  GuestOperationRecord, GuestOperationKind, intent_recorded, transport_active, artifact_committed,
  completed, failed, GuestFailureClass, interrupted, failure_class_eq, GuestFailureClass-discrete,
  guest_failure_class, intent_with_job,
}
use vm_cell_manager.Guest.Schema.{fields_are_valid, times_are_invalid, makes_artifact}

pub record GuestCompletion : Type 0 where
  pub exit_code : Option ℕ
  pub stdout_bytes : Option ℕ
  pub stderr_bytes : Option ℕ
  pub artifact_id : Option Uuid

-- Before the transport is used.
unfoldable pub activate : ℕ → GuestOperationRecord → GuestOperationRecord
activate now r = record r { phase = transport_active; updated_at = now }

-- The first half of success.
unfoldable pub apply_completion : GuestCompletion → ℕ → GuestOperationRecord → GuestOperationRecord
apply_completion c now r = record r {
  phase = if is_some c.artifact_id then artifact_committed else completed;
  updated_at = now;
  exit_code = c.exit_code;
  stdout_bytes = c.stdout_bytes;
  stderr_bytes = c.stderr_bytes;
  artifact_id = c.artifact_id;
}

-- The second half, after a committed artifact was saved.
unfoldable pub finish_artifact : ℕ → GuestOperationRecord → GuestOperationRecord
finish_artifact now r = record r { phase = completed; updated_at = now; completed_at = some now }

-- `completed_at` of an operation without an artifact.
unfoldable pub finish : GuestOperationRecord → GuestOperationRecord
finish r = record r { completed_at = some r.updated_at }

-- The failure of an operation.
abbrev pub fail_with : GuestFailureClass × Bool → ℕ → GuestOperationRecord → GuestOperationRecord
fail_with (class, true) now r = record r {
  failure = some class;
  updated_at = now;
  phase = failed;
  completed_at = some now;
}
fail_with (class, false) now r = record r { failure = some class; updated_at = now }

unfoldable pub record_failure : EngineError → ℕ → GuestOperationRecord → GuestOperationRecord
record_failure e now r = fail_with (guest_failure_class e) now r

-- `reconcile_guest_operation` on an operation that never reached its transport.
unfoldable pub interrupt : ℕ → GuestOperationRecord → GuestOperationRecord
interrupt now r = record r {
  phase = failed;
  failure = some interrupted;
  updated_at = now;
  completed_at = some now;
}

-- `prune_artifacts` on a completed operation.
unfoldable pub tombstone : ℕ → GuestOperationRecord → GuestOperationRecord
tombstone now r = record r { updated_at = now; artifact_pruned_at = some now }

-- The part of the schema that a change can break.
unfoldable pub IsConsistent : GuestOperationRecord → Type 0
IsConsistent r = (fields_are_valid r ≡ true) × (times_are_invalid r ≡ false)

module _ (now : ℕ) (r : GuestOperationRecord) (c : IsConsistent r)
    (later : r.updated_at ≤ now) where
  pub activate-IsConsistent : r.phase ≡ intent_recorded → IsConsistent (activate now r)
  unfolding IsConsistent fields_are_valid times_are_invalid activate
  activate-IsConsistent p = grind arith

  pub interrupt-IsConsistent : r.phase ≡ intent_recorded → IsConsistent (interrupt now r)
  unfolding IsConsistent fields_are_valid times_are_invalid interrupt GuestFailureClass-discrete
  interrupt-IsConsistent p = ground arith

  -- A failure of an active operation keeps it consistent, final or not.
  pub record_failure-IsConsistent :
      (e : EngineError) → r.phase ≡ transport_active → IsConsistent (record_failure e now r)
  unfolding IsConsistent fields_are_valid times_are_invalid record_failure guest_failure_class
      GuestFailureClass-discrete
  record_failure-IsConsistent e p = ground arith

  -- A completion with an artifact: the operation's own, of a kind that makes one, without output.
  pub committed-IsConsistent :
      (done : GuestCompletion)
      → r.phase ≡ transport_active
      → r.failure ≡ none
      → done.artifact_id ≡ some r.id
      → (done.exit_code ≡ none) × (done.stdout_bytes ≡ none) × (done.stderr_bytes ≡ none)
      → makes_artifact r.kind ≡ true
      → IsConsistent (apply_completion done now r)
  unfolding IsConsistent fields_are_valid times_are_invalid apply_completion
  committed-IsConsistent done p f a o k = grind arith

  pub finish_artifact-IsConsistent :
      r.phase ≡ artifact_committed → IsConsistent (finish_artifact now r)
  unfolding IsConsistent fields_are_valid times_are_invalid finish_artifact
  finish_artifact-IsConsistent p = ground arith

  pub completed-IsConsistent :
      (done : GuestCompletion)
      → r.phase ≡ transport_active
      → r.failure ≡ none
      → done.artifact_id ≡ none
      → IsConsistent (finish (apply_completion done now r))
  unfolding IsConsistent fields_are_valid times_are_invalid apply_completion finish
  completed-IsConsistent done p f a = ground arith

  pub tombstone-IsConsistent :
      r.phase ≡ completed
      → r.artifact_id ≡ some r.id
      → r.artifact_pruned_at ≡ none
      → (r.exit_code ≡ none) × (r.stdout_bytes ≡ none) × (r.stderr_bytes ≡ none)
      → IsConsistent (tombstone now r)
  unfolding IsConsistent fields_are_valid times_are_invalid tombstone
  tombstone-IsConsistent p a n o = ground arith

pub intent-IsConsistent :
    (id cell_id : Uuid) (kind : GuestOperationKind) (now : ℕ) (job_id : Option Uuid)
    → IsConsistent (intent_with_job id cell_id kind now job_id)
unfolding IsConsistent fields_are_valid times_are_invalid intent_with_job
intent-IsConsistent id cell_id kind now job_id = ground arith
