-- ===== src/Lifecycle/Tests.antt =====
-- A cell, its provider and its files in memory, runs of the lifecycle methods on them, and the
-- theorems there.
mod Succeeds
use vm_cell_manager.Prelude.{
  ◌≡◌, refl, ap, true, false, ◌==◌, eq_self, ◌+◌, nat_eq, string_eq, zero, suc, String, Option,
  none, some, [], ◌∷◌, length, ok, err, String-discrete, nat-discrete, Option-discrete,
}
use vm_cell_manager.Host.{Uuid, Host}
use vm_cell_manager.Platform.{GuestOs}
use vm_cell_manager.Cell.{
  CellState, stopped, running, ready, CellRecord, CellState-discrete, JobCorrelation-discrete,
  cell_object_name, cell_marker, ◌<>◌,
}
use vm_cell_manager.Provider.{
  ProviderVm, ProviderPowerState, ProviderError, off, by_id, by_name, ProviderPowerState-discrete,
}
use vm_cell_manager.Engine.Errors.{provider}
use vm_cell_manager.Engine.Identity.{
  identity_reasons, disk_mismatch, ownership_drift, prove_ownership, destroy_reasons,
  prove_destroy_identity, validate_recorded_identity, cell_runtime_root, cell_overlay_path_for,
  cell_configuration_path_for, validate_local_ownership_record,
}
use vm_cell_manager.Program.{
  validate_root, read_cell, read_cells, write_cell, verify_registered_image, acquire_mutation_lock,
  load_installation, acquire_installation_authority, pin_cell_runtime, remove_cell_runtime,
  list_guest_operations, now, inspect_vm, start_vm, stop_vm, remove_vm,
}
use vm_cell_manager.Program.Logic.{Platform, run, History, Respects}
use vm_cell_manager.Store.{
  codes, redact_cell_diagnostic, validate_cell_schema, validate_cell_correlation,
  cell_version_is_known, validate_files, validate_unique_cell_job_ids,
}
use vm_cell_manager.Store.Files.{
  check_existing_job, validate_unique_cell_job_id, load_cell, save_redacted, save_cell,
}
use vm_cell_manager.Lifecycle.{
  operation_report, require_lifecycle_state, require_provider, validate_local_ownership,
  exact_owned_vm, settle_record, bound_variant,
}
use vm_cell_manager.Lifecycle.Permits.{Lawful, Ends, Conforms}
use vm_cell_manager.Lifecycle.Power.{
  verify_parent, power_on, start_from, start_cell, power_off, stop_from, stop_cell,
}
use vm_cell_manager.Lifecycle.Power.Confirmed.{Reported}
use vm_cell_manager.Lifecycle.Power.Started.{start_cell-Conforms, stop_cell-Conforms}
use vm_cell_manager.Lifecycle.Destroy.{
  commit_destroyed, claim_for_destroy, stop_for_destroy, power_down, remove_object, destroy_claimed,
  destroy_present, destroy_object, destroy_live, destroy_cell_locked, destroy_cell,
}
use vm_cell_manager.Lifecycle.Destroy.Tombstone.{Destroyed}
use vm_cell_manager.Lifecycle.Destroy.Removed.{destroy_cell-Conforms}
use vm_cell_manager.Lifecycle.Reconcile.Inspected.{Inspected}
use vm_cell_manager.Lifecycle.Create.{create_cell_with_id}
use vm_cell_manager.Lifecycle.Create.Held.{Created}
use vm_cell_manager.Lifecycle.Create.Created.{create_cell_with_id-Conforms}
use vm_cell_manager.Lifecycle.Collect.Collected.{Collected}
use vm_cell_manager.Lifecycle.Permits.Runs.{Conforms-run}

-- A UUID written in ones.
abbrev ones : Uuid → String
ones zero = String.[]
ones (suc n) = String.◌∷◌ "1" (ones n)

ones_read : (u : Uuid) → length (codes (ones u)) ≡ u
ones_read zero = refl
ones_read (suc n) = ap suc (ones_read n)

abbrev unary : Host
unary = record {
  uuid_text = ones;
  parse_uuid = λ s. some (length (codes s));
  join = λ a b. a <> "/" <> b;
  paths_equal = λ a b. a == b;
  eq_ignore_case = λ a b. a == b;
}

abbrev stem_of : Uuid → Option String
stem_of u = some (ones u)

abbrev cell_two : CellRecord
cell_two = record {
  schema_version = 1;
  id = 2;
  provider = "qemu";
  spec = record {
    image = "linux";
    provider = some "qemu";
    cpu_count = 2;
    memory_mib = 1024;
    ttl_seconds = none;
    accelerator = some "kvm";
    allow_tcg = false;
  };
  image = record {
    image_id = "linux";
    guest_os = some GuestOs.linux;
    provider = "qemu";
    disk_format = "qcow2";
    path = "base.qcow2";
    sha256 = "aa";
    file_size = 1024;
  };
  ownership = record {
    schema_version = 1;
    install_id = 1;
    operation_id = 3;
    provider_object_name = "vmcell-11";
    provider_marker = "vmcell:v1:1:11:111";
    configuration_path = "state/runtime/11/qemu";
    overlay_path = "state/runtime/11/cell.qcow2";
  };
  provider_object = some (record { id = "1111"; name = "vmcell-11" });
  state = stopped;
  phase = ready;
  created_at = 10;
  updated_at = 10;
  expires_at = none;
  last_error = none;
  job = none;
}

abbrev vm_two : ProviderVm
vm_two = record {
  id = "1111";
  name = "vmcell-11";
  power_state = off;
  ownership_marker = "vmcell:v1:1:11:111";
  configuration_path = "state/runtime/11/qemu";
  attached_disks = "state/runtime/11/cell.qcow2" ∷ [];
  network_adapter_count = 0;
  cpu_count = 2;
  memory_mib = 1024;
}

-- The stored record, and the provider's virtual machine, if it has one.
abbrev World : Type 0
World = CellRecord × Option ProviderVm

abbrev powered : ProviderPowerState → Option ProviderVm → Option ProviderVm
powered p none = none
powered p (some vm) = some (record vm { power_state = p })

-- The world's clock stands still, and what it does not do fails.
abbrev memory : Platform World
memory acquire_mutation_lock w = (ok tt, w)
memory validate_root w = (ok tt, w)
memory (read_cell _) w = (ok w.0, w)
memory read_cells w = (ok ((stem_of w.0.id, w.0) ∷ []), w)
memory (write_cell r) w = (ok tt, (r, w.1))
memory (verify_registered_image _) w = (ok tt, w)
memory load_installation w = (ok 1, w)
memory acquire_installation_authority w = (ok 1, w)
memory (pin_cell_runtime _ _ _) w = (ok tt, w)
memory (remove_cell_runtime _) w = (ok tt, w)
memory list_guest_operations w = (ok [], w)
memory now w = (ok 20, w)
memory (inspect_vm (by_id _)) w = (ok w.1, w)
memory (inspect_vm (by_name _)) w = (ok w.1, w)
memory (start_vm _ _) w = (ok tt, (w.0, powered ProviderPowerState.running w.1))
memory (stop_vm _ _) w = (ok tt, (w.0, powered off w.1))
memory (remove_vm _ _) w = (ok tt, (w.0, none))
memory op w = (err (provider ProviderError.unsupported), w)

lifecycle_runs : Unit {0}
unfolding identity_reasons disk_mismatch ownership_drift prove_ownership destroy_reasons
    prove_destroy_identity validate_recorded_identity cell_runtime_root cell_overlay_path_for
    cell_configuration_path_for validate_local_ownership_record String-discrete nat-discrete
    Option-discrete JobCorrelation-discrete ProviderPowerState-discrete CellState-discrete
    cell_object_name cell_marker run redact_cell_diagnostic validate_cell_schema
    validate_cell_correlation cell_version_is_known validate_files validate_unique_cell_job_ids
    check_existing_job validate_unique_cell_job_id load_cell save_redacted save_cell
    operation_report require_lifecycle_state require_provider validate_local_ownership
    exact_owned_vm settle_record bound_variant verify_parent power_on start_from start_cell
    power_off stop_from stop_cell commit_destroyed claim_for_destroy stop_for_destroy power_down
    remove_object destroy_claimed destroy_present destroy_object destroy_live destroy_cell_locked
    destroy_cell
lifecycle_runs = tt

-- A stopped cell starts.
start_cell_runs :
    (run memory (start_cell unary stem_of "qemu" "state" 2) (cell_two, some vm_two) []).0
    ≡ ok (record { cell_id = 2; state = running; changed = true })
unfolding lifecycle_runs
start_cell_runs = refl

-- A running cell is destroyed: it is stopped first.
destroy_cell_runs :
    (run memory
      (destroy_cell unary stem_of "qemu" "state" 2)
      (record cell_two { state = running }, powered ProviderPowerState.running (some vm_two))
      []).0
    ≡ ok (record { cell_id = 2; state = CellState.destroyed; changed = true })
unfolding lifecycle_runs
destroy_cell_runs = refl

start_cell-Conforms_example :
    Conforms unary "qemu" "state"
      (Reported unary running ProviderPowerState.running 2)
      []
      (start_cell unary stem_of "qemu" "state" 2)
start_cell-Conforms_example = start_cell-Conforms unary stem_of "qemu" "state" 2

stop_cell-Conforms_example :
    Conforms unary "qemu" "state"
      (Reported unary stopped off 2)
      []
      (stop_cell unary stem_of "qemu" "state" 2)
stop_cell-Conforms_example = stop_cell-Conforms unary stem_of "qemu" "state" 2

destroy_cell-Conforms_example :
    Conforms unary "qemu" "state" (Destroyed 2) [] (destroy_cell unary stem_of "qemu" "state" 2)
destroy_cell-Conforms_example = destroy_cell-Conforms unary stem_of "qemu" "state" 2

same_text : (p : String) → (p == p) ≡ true
same_text p = eq_self p

create_cell_with_id-Conforms_example :
    Conforms unary "qemu" "state" (Created unary stem_of "qemu" "state" 2 cell_two.spec) [] (
      create_cell_with_id unary stem_of "qemu" "state"
        (λ t s. t + s)
        (λ i. some i)
        cell_two.spec
        2
        none)
create_cell_with_id-Conforms_example =
    create_cell_with_id-Conforms unary stem_of "qemu" "state" (λ u. ap some (ones_read u)) same_text
      (λ t s. t + s) (λ i. some i) cell_two.spec 2 none

abbrev locked_history : History
locked_history = record { op = acquire_mutation_lock; reply = ok tt } ∷ []

-- What holds on every path holds of a run.
start_on_memory :
    let (r, _, h) =
      run memory (start_cell unary stem_of "qemu" "state" 2) (cell_two, some vm_two) [] in
    Respects (Lawful unary "qemu" "state") h
    × Ends (Reported unary running ProviderPowerState.running 2) h r
start_on_memory =
    Conforms-run unary "qemu" "state" (Reported unary running ProviderPowerState.running 2)
      (start_cell unary stem_of "qemu" "state" 2) memory (cell_two, some vm_two)
      start_cell-Conforms_example
