-- ===== src/Guest/Tests.antt =====
-- A guest operation on a cell without a job, on a platform where every write succeeds.
use vm_cell_manager.Prelude.{
  [], ◌∷◌, ℕ, false, true, Option, suc, String, none, some, ◌≡◌, ◌↔◌, ◌≤◌, refl, ok, err, arith,
  ◌==◌, string_eq, String-discrete, nat-discrete, Option-discrete,
}
use vm_cell_manager.Host.{Uuid, Host}
use vm_cell_manager.Cell.{CellRecord, running, ready}
use vm_cell_manager.Engine.Errors.{
  not_found, state, io, guest_operation_integrity, guest, authentication_failed,
}
use vm_cell_manager.Guest.Recovery.{
  RecoveryEnv, reconcile_guest_operation, triage, settle, load_with_parent, load_guest_operation,
  parent_for_read, parent_for_write, report_of, action_for, interrupted_before_transport,
}
use vm_cell_manager.Guest.Recovery.Reported.{IsSettled}
use vm_cell_manager.Guest.Recovery.Settled.{reconcile-IsSettled}
use vm_cell_manager.Guest.Delivered.Artifact.{stop_before_last, run_recorded-artifact}
use vm_cell_manager.Guest.Delivered.Masked.{run_recorded-masked}
use vm_cell_manager.Guest.{
  ArtifactRecord, GuestOperationRecord, artifact_committed, completed, operation_schema_version,
  GuestFailureClass-discrete, copy_out, guest_failure_class, exec, intent_with_job,
}
use vm_cell_manager.Guest.Artifacts.{IsBounded, validate_artifact_schema-IsBounded}
use vm_cell_manager.Guest.Schema.{
  validate_artifact_schema, artifact_version_is_known, artifact_correlation_is_valid, checked_total,
  version_is_known, correlation_is_valid, fields_are_valid, times_are_invalid,
  validate_operation_job_binding, makes_artifact, validate_guest_operation_schema,
}
use vm_cell_manager.Guest.Changes.{
  GuestCompletion, activate, apply_completion, finish_artifact, finish, interrupt,
}
use vm_cell_manager.Guest.Run.{
  save_guest_operation, check_write, check_existing, RunEnv, written, run_recorded,
}
use vm_cell_manager.Guest.Described.{IsDescribed, validate_guest_operation_schema_iff}
use vm_cell_manager.Guest.Outcome.{IsDone, run_recorded-IsDone}
use vm_cell_manager.Guest.Delivered.{IsCalm, IsFailed, run_recorded-err, run_recorded-output}

abbrev posix : Host
posix = record {
  uuid_text = λ u. "id";
  parse_uuid = λ s. some 0;
  join = λ a b. b;
  paths_equal = λ a b. a == b;
  eq_ignore_case = λ a b. a == b;
}

abbrev stem : Uuid → Option String
stem u = some "id"

abbrev cell_one : CellRecord
cell_one = record {
  schema_version = 1;
  id = 1;
  provider = "qemu";
  spec = record {
    image = "linux";
    provider = some "qemu";
    cpu_count = 2;
    memory_mib = 1024;
    ttl_seconds = none;
    accelerator = none;
    allow_tcg = false;
  };
  image = record {
    image_id = "linux";
    guest_os = none;
    provider = "qemu";
    disk_format = "qcow2";
    path = "base.qcow2";
    sha256 = "aa";
    file_size = 1024;
  };
  ownership = record {
    schema_version = 1;
    install_id = 0;
    operation_id = 0;
    provider_object_name = "vmcell-id";
    provider_marker = "vmcell:v1:id:id:id";
    configuration_path = "qemu";
    overlay_path = "cell.qcow2";
  };
  provider_object = none;
  state = running;
  phase = ready;
  created_at = 10;
  updated_at = 10;
  expires_at = none;
  last_error = none;
  job = none;
}

abbrev exit_zero : GuestCompletion
exit_zero = record {
  exit_code = some 0;
  stdout_bytes = some 5;
  stderr_bytes = some 0;
  artifact_id = none;
}

-- The n-th reading of the clock is n.
abbrev succeeding : RunEnv
succeeding = record { disk = λ n. written; clock = λ n. n; prepare = ok tt; act = ok exit_zero }

abbrev refused : RunEnv
refused = record succeeding { act = err (guest authentication_failed) }

one_later : (n : ℕ) → n ≤ suc n
one_later n = omega arith

succeeding-IsCalm : IsCalm posix stem succeeding
succeeding-IsCalm = record { stems = λ id. refl; writes = λ n. refl; clock = one_later }

refused-IsCalm : IsCalm posix stem refused
refused-IsCalm = record { stems = λ id. refl; writes = λ n. refl; clock = one_later }

no_job_binds : validate_operation_job_binding cell_one (intent_with_job 7 1 exec 0 none) ≡ ok tt
unfolding validate_operation_job_binding intent_with_job
no_job_binds = refl

run_recorded-output_example : run_recorded posix stem cell_one succeeding 7 exec none ≡ (
  some (finish (apply_completion exit_zero 2 (activate 1 (intent_with_job 7 1 exec 0 none)))),
  ok exit_zero,
)
run_recorded-output_example =
    run_recorded-output posix stem cell_one succeeding succeeding-IsCalm 7 exec none no_job_binds
      exit_zero refl refl refl

run_recorded-err_example :
    (r : GuestOperationRecord) × (run_recorded posix stem cell_one refused 7 exec none
      ≡ (some r, err (guest authentication_failed)))
    × IsFailed 7 1 exec (guest authentication_failed) 2 r
run_recorded-err_example =
    run_recorded-err posix stem cell_one refused refused-IsCalm 7 exec none no_job_binds
      (guest authentication_failed) refl refl

run_recorded-IsDone_example :
    IsDone posix stem cell_one succeeding 7
      (some (finish (apply_completion exit_zero 2 (activate 1 (intent_with_job 7 1 exec 0 none)))))
    × (succeeding.act ≡ ok exit_zero)
    × (succeeding.prepare ≡ ok tt)
run_recorded-IsDone_example =
    run_recorded-IsDone posix stem cell_one succeeding 7 exec none run_recorded-output_example

validate_guest_operation_schema_iff_example :
    (validate_guest_operation_schema posix (some "id") (intent_with_job 7 1 exec 0 none) ≡ ok tt)
    ↔ IsDescribed posix (some "id") (intent_with_job 7 1 exec 0 none)
validate_guest_operation_schema_iff_example =
    validate_guest_operation_schema_iff posix (some "id") (intent_with_job 7 1 exec 0 none)

abbrev own_artifact : GuestCompletion
own_artifact = record {
  exit_code = none;
  stdout_bytes = none;
  stderr_bytes = none;
  artifact_id = some 7;
}

abbrev collecting : RunEnv
collecting = record succeeding { act = ok own_artifact }

collecting-IsCalm : IsCalm posix stem collecting
collecting-IsCalm = record { stems = λ id. refl; writes = λ n. refl; clock = one_later }

no_job_binds_copy :
    validate_operation_job_binding cell_one (intent_with_job 7 1 copy_out 0 none) ≡ ok tt
unfolding validate_operation_job_binding intent_with_job
no_job_binds_copy = refl

copy_out_makes_artifact : makes_artifact copy_out ≡ true
unfolding makes_artifact
copy_out_makes_artifact = refl

abbrev committed_copy : GuestOperationRecord
committed_copy = apply_completion own_artifact 2 (activate 1 (intent_with_job 7 1 copy_out 0 none))

run_recorded-artifact_example :
    (run_recorded posix stem cell_one collecting 7 copy_out none
      ≡ (some (finish_artifact 3 committed_copy), ok own_artifact))
    × (run_recorded posix stem cell_one
          (record collecting { disk = stop_before_last io collecting.disk })
          7
          copy_out
          none
        ≡ (some committed_copy, err (state io)))
    × (committed_copy.phase ≡ artifact_committed)
    × ((finish_artifact 3 committed_copy).phase ≡ completed)
run_recorded-artifact_example =
    run_recorded-artifact posix stem cell_one 7 copy_out none collecting collecting-IsCalm
      no_job_binds_copy own_artifact io refl refl refl (refl, refl, refl) copy_out_makes_artifact

abbrev unpinned : RunEnv
unpinned = record succeeding { prepare = err (state io) }

unpinned-IsCalm : IsCalm posix stem unpinned
unpinned-IsCalm = record { stems = λ id. refl; writes = λ n. refl; clock = one_later }

io_is_not_final : (guest_failure_class (state io)).1 ≡ false
unfolding guest_failure_class
io_is_not_final = refl

run_recorded-masked_example :
    run_recorded posix stem cell_one unpinned 7 exec none
    ≡ (some (intent_with_job 7 1 exec 0 none), err (state guest_operation_integrity))
run_recorded-masked_example =
    run_recorded-masked posix stem cell_one unpinned unpinned-IsCalm 7 exec none no_job_binds
      (state io) refl io_is_not_final

abbrev reading : RecoveryEnv
reading = record {
  load_cell = λ n u. ok cell_one;
  lock = ok tt;
  load_artifact = λ cell_id u. err not_found;
  now = 9;
  disk = written;
}

recovery_runs : Unit {0}
unfolding reconcile_guest_operation triage settle load_with_parent load_guest_operation
    parent_for_read parent_for_write validate_guest_operation_schema validate_operation_job_binding
    version_is_known correlation_is_valid fields_are_valid times_are_invalid intent_with_job
    operation_schema_version interrupt save_guest_operation check_write check_existing
    String-discrete nat-discrete Option-discrete GuestFailureClass-discrete report_of action_for
recovery_runs = tt

abbrev intent_seven : GuestOperationRecord
intent_seven = intent_with_job 7 1 exec 0 none

intent_is_interrupted :
    reconcile_guest_operation posix stem reading 7 (some intent_seven) (some intent_seven) ≡ (
      some (interrupt 9 intent_seven),
      ok (report_of (interrupt 9 intent_seven) interrupted_before_transport true),
    )
unfolding recovery_runs
intent_is_interrupted = refl

reconcile-IsSettled_example :
    IsSettled 7
      (some intent_seven)
      (some intent_seven)
      (some (interrupt 9 intent_seven))
      (report_of (interrupt 9 intent_seven) interrupted_before_transport true)
reconcile-IsSettled_example =
    reconcile-IsSettled posix stem reading 7 (some intent_seven) (some intent_seven)
      intent_is_interrupted

abbrev one_file : ArtifactRecord
one_file = record {
  schema_version = 1;
  id = 7;
  cell_id = 1;
  created_at = 5;
  entries =
      record { guest_path = "/var/log/a"; host_relative_path = "files/0"; sha256 = "aa"; size = 12 }
      ∷ [];
  job_id = none;
}

one_file_is_valid : validate_artifact_schema one_file ≡ ok tt
unfolding validate_artifact_schema artifact_version_is_known artifact_correlation_is_valid
    checked_total nat-discrete
one_file_is_valid = refl

validate_artifact_schema-IsBounded_example : IsBounded one_file
validate_artifact_schema-IsBounded_example =
    validate_artifact_schema-IsBounded one_file one_file_is_valid
