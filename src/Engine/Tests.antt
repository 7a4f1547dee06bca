-- ===== src/Engine/Tests.antt =====
-- A cell of a small installation with its virtual machine, and the theorems there.
use vm_cell_manager.Prelude.{
  ◌&&◌, option_eq, Bool-discrete, true, false, none, some, [], ◌∷◌, ◌≡◌, ◌↔◌, if◌then◌else◌, zero,
  suc, refl, ok, String, String-discrete, nat-discrete, Option-discrete, ◌==◌, string_eq,
}
use vm_cell_manager.Host.{Uuid, Host}
use vm_cell_manager.Platform.{GuestOs}
use vm_cell_manager.Cell.{
  CellRecord, running, ready, cell_object_name, cell_marker, new_ownership, ◌<>◌,
}
use vm_cell_manager.Provider.{ProviderVm, off, ProviderPowerState-discrete}
use vm_cell_manager.Provider.Authority.{Guards}
use vm_cell_manager.Engine.Request.{
  validate_cell_spec, validate_cell_resources, provider_unsupported, misplaced_policy, IsBounded,
  validate_cell_spec-IsBounded,
}
use vm_cell_manager.Engine.Identity.{
  identity_reasons, disk_mismatch, ownership_drift, creation_reasons, destroy_reasons,
  prove_ownership, prove_creation_identity, prove_destroy_identity, validate_recorded_identity,
  cell_runtime_root, cell_overlay_path_for, cell_configuration_path_for,
  validate_local_ownership_record,
}
use vm_cell_manager.Engine.Proven.{
  IsOwned, IsIsolated, IsFresh, prove_ownership_iff, prove_destroy_identity_iff,
  prove_creation_identity-IsFresh,
}
use vm_cell_manager.Engine.Local.{IsLocal, validate_local_ownership_record_iff}

-- Two UUIDs are told apart.
abbrev text_of : Uuid → String
text_of zero = "00000000"
text_of (suc n) = "00000001"

abbrev posix : Host
posix = record {
  uuid_text = text_of;
  parse_uuid = λ s. if s == "00000000" then some 0 else some 1;
  join = λ a b. a <> "/" <> b;
  paths_equal = λ a b. a == b;
  eq_ignore_case = λ a b. a == b;
}

abbrev cell_one : CellRecord
cell_one = record {
  schema_version = 1;
  id = 1;
  provider = "qemu";
  spec = record {
    image = "linux";
    provider = some "qemu";
    cpu_count = 2;
    memory_mib = 1024;
    ttl_seconds = none;
    accelerator = some "kvm";
    allow_tcg = false;
  };
  image = record {
    image_id = "linux";
    guest_os = some GuestOs.linux;
    provider = "qemu";
    disk_format = "qcow2";
    path = "base.qcow2";
    sha256 = "aa";
    file_size = 1024;
  };
  ownership = record {
    schema_version = 1;
    install_id = 0;
    operation_id = 0;
    provider_object_name = "vmcell-00000001";
    provider_marker = "vmcell:v1:00000000:00000001:00000000";
    configuration_path = "state/runtime/00000001/qemu";
    overlay_path = "state/runtime/00000001/cell.qcow2";
  };
  provider_object = some (record { id = "00000001"; name = "vmcell-00000001" });
  state = running;
  phase = ready;
  created_at = 10;
  updated_at = 10;
  expires_at = none;
  last_error = none;
  job = none;
}

abbrev vm_one : ProviderVm
vm_one = record {
  id = "00000001";
  name = "vmcell-00000001";
  power_state = off;
  ownership_marker = "vmcell:v1:00000000:00000001:00000000";
  configuration_path = "state/runtime/00000001/qemu";
  attached_disks = "state/runtime/00000001/cell.qcow2" ∷ [];
  network_adapter_count = 0;
  cpu_count = 2;
  memory_mib = 1024;
}

abbrev guards_one : Guards
guards_one = record {
  root_unchanged = true;
  runtime_unchanged = true;
  install_id = 0;
  cell_id = 1;
  configuration_path = "state/runtime/00000001/qemu";
  overlay_path = "state/runtime/00000001/cell.qcow2";
}

identity_runs : Unit {0}
unfolding identity_reasons disk_mismatch ownership_drift creation_reasons destroy_reasons
    prove_ownership prove_creation_identity prove_destroy_identity validate_recorded_identity
    cell_runtime_root cell_overlay_path_for cell_configuration_path_for
    validate_local_ownership_record String-discrete nat-discrete Option-discrete
    ProviderPowerState-discrete cell_object_name cell_marker new_ownership
identity_runs = tt

vm_one_is_fresh : prove_creation_identity posix cell_one vm_one true ≡ ok tt
unfolding identity_runs
vm_one_is_fresh = refl

-- What `new_ownership` makes is what the local check asks for.
ownership_is_derived :
    new_ownership posix 0 1 0 "state/runtime/00000001/qemu" "state/runtime/00000001/cell.qcow2"
    ≡ cell_one.ownership
unfolding identity_runs
ownership_is_derived = refl

prove_ownership_iff_example :
    (prove_ownership posix cell_one vm_one ≡ ok tt) ↔ IsIsolated posix cell_one vm_one
prove_ownership_iff_example = prove_ownership_iff posix cell_one vm_one

prove_destroy_identity_iff_example :
    (prove_destroy_identity posix cell_one vm_one ≡ ok tt) ↔ IsOwned posix cell_one vm_one
prove_destroy_identity_iff_example = prove_destroy_identity_iff posix cell_one vm_one

prove_creation_identity-IsFresh_example : IsFresh posix cell_one vm_one true
prove_creation_identity-IsFresh_example =
    prove_creation_identity-IsFresh posix cell_one vm_one true vm_one_is_fresh

validate_local_ownership_record_iff_example :
    (validate_local_ownership_record posix "qemu" "state" cell_one 0 ≡ ok tt)
    ↔ IsLocal posix "qemu" "state" 0 cell_one
validate_local_ownership_record_iff_example =
    validate_local_ownership_record_iff posix "qemu" "state" cell_one 0

-- One path is a link to another.
abbrev follow_link : String → String
follow_link p = if p == "link" then "state" else p

abbrev qemu_name : String
qemu_name = "qemu"

request_runs : Unit {0}
unfolding validate_cell_spec validate_cell_resources provider_unsupported misplaced_policy
    String-discrete nat-discrete Option-discrete Bool-discrete
request_runs = tt

request_is_valid : validate_cell_spec cell_one.spec "qemu" ≡ ok tt
unfolding request_runs
request_is_valid = refl

validate_cell_spec-IsBounded_example :
    IsBounded cell_one.spec
    × (cell_one.spec.provider ≡ some qemu_name)
    × (cell_one.spec.allow_tcg ≡ (cell_one.spec.accelerator == some "tcg"))
    × ((qemu_name == "hyperv" && cell_one.spec.allow_tcg) ≡ false)
validate_cell_spec-IsBounded_example =
    validate_cell_spec-IsBounded cell_one.spec qemu_name request_is_valid
