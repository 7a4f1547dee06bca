-- ===== src/Provider.antt =====
-- src/providers/mod.rs: the data that the engine exchanges with a provider, and the trait
-- `LocalVmProvider` as an interface over a state of the provider's own. The implementations
-- (Hyper-V, QEMU) drive external programs and are not modelled.
pub mod Authority
pub mod Normalized
mod Tests
use vm_cell_manager.Prelude.{
  ℕ, String, Bool, true, false, not, Option, none, some, List, Eq, ◌==◌, ◌!=◌, ◌&&◌, nat_eq,
  string_eq, String-discrete, if◌then◌else◌, Result,
}
use vm_cell_manager.Cell.{CellId, CellPhase, CellRecord}
use vm_cell_manager.Host.{Uuid}
use vm_cell_manager.Capability.{
  ProviderProbe, ProviderProbeStatus, ready, probe_failed, probe_status_eq,
  unavailable_capabilities, automation_schema_version,
}

-- `ProviderProbe::normalized`
unfoldable pub normalized : ProviderProbe → ProviderProbe
normalized p =
    let usable =
      p.capabilities.schema_version == automation_schema_version
      && (p.capabilities.full_system_vm && p.capabilities.cow_overlay) in
    let checked =
      if p.status == ready && not usable
      then record p {
        status = probe_failed;
        detail = "provider readiness response omitted required lifecycle capabilities";
      }
      else p in
    let is_ready = checked.status == ready in
    record checked {
      available = is_ready;
      capabilities = if is_ready then checked.capabilities else unavailable_capabilities;
    }

pub data ProviderPowerState : Type 0 where
  off running paused saved : ProviderPowerState
  other : String → ProviderPowerState

unfoldable pub ProviderPowerState-discrete : Discrete ProviderPowerState
ProviderPowerState-discrete = hlevel (String-discrete)

instance abbrev pub power_state_eq : Eq ProviderPowerState
power_state_eq = record { dec = ProviderPowerState-discrete }

pub record ProviderImageInfo : Type 0 where
  pub path : String
  pub disk_format : String
  pub disk_type : String
  pub parent_path : Option String
  pub file_size : ℕ
  pub virtual_size : ℕ

pub record CreateOverlayRequest : Type 0 where
  pub parent_path : String
  pub overlay_path : String

pub record CreateVmRequest : Type 0 where
  pub name : String
  pub configuration_path : String
  pub overlay_path : String
  pub parent_path : String
  pub memory_mib : ℕ
  pub cpu_count : ℕ
  pub accelerator : Option String
  pub allow_tcg : Bool

pub record ProviderVm : Type 0 where
  pub id : String
  pub name : String
  pub power_state : ProviderPowerState
  pub ownership_marker : String
  pub configuration_path : String
  pub attached_disks : List String
  pub network_adapter_count : ℕ
  pub cpu_count : ℕ
  pub memory_mib : ℕ

pub record ClaimVmRequest : Type 0 where
  pub expected : ProviderVm
  pub ownership_marker : String

pub record ConfigureVmRequest : Type 0 where
  pub expected : ProviderVm
  pub cpu_count : ℕ

pub record ProviderVmIdentity : Type 0 where
  pub id : String
  pub name : String

pub data VmLookup : Type 0 where
  by_id by_name : String → VmLookup

-- The texts of errors are not modelled.
pub data ProviderError : Type 0 where
  unsupported command timeout output_limit invalid_response not_found : ProviderError
  collision ownership_changed authority : ProviderError

-- `ProviderMutationAuthority`: the fields that its checks read, with the identities that its
-- guards pin: the installation, the runtime, and whether the guards still match the file system.
pub record MutationAuthority : Type 0 where
  pub install_id : Uuid
  pub cell_id : CellId
  pub provider_name : String
  pub provider_id : Option String
  pub provider_marker : String
  pub configuration_path : String
  pub overlay_path : String
  pub parent_image_path : String
  pub phase : CellPhase
  pub cpu_count : ℕ
  pub memory_mib : ℕ
  pub accelerator : Option String
  pub allow_tcg : Bool

-- `ProviderMutationAuthority::new`
abbrev pub object_id : CellRecord → Option String
object_id record_ = elim record_.provider_object [ none ↦ none | some identity ↦ some identity.id ]

unfoldable pub new_authority : CellRecord → MutationAuthority
new_authority r = record {
  install_id = r.ownership.install_id;
  cell_id = r.id;
  provider_name = r.provider;
  provider_id = object_id r;
  provider_marker = r.ownership.provider_marker;
  configuration_path = r.ownership.configuration_path;
  overlay_path = r.ownership.overlay_path;
  parent_image_path = r.image.path;
  phase = r.phase;
  cpu_count = r.spec.cpu_count;
  memory_mib = r.spec.memory_mib;
  accelerator = r.spec.accelerator;
  allow_tcg = r.spec.allow_tcg;
}

-- `LocalVmProvider`: every call reads and may change the provider's state.
abbrev pub Call : Type 0 → Type 0 → Type 0
Call S A = S → Result ProviderError A × S

pub record LocalVmProvider (S : Type 0) : Type 0 where
  pub name : String
  pub probe : S → ProviderProbe
  pub inspect_image : String → Call S ProviderImageInfo
  pub create_overlay : MutationAuthority → CreateOverlayRequest → Call S ProviderImageInfo
  pub create_vm : MutationAuthority → CreateVmRequest → Call S ProviderVmIdentity
  pub claim_vm : MutationAuthority → ClaimVmRequest → Call S ProviderVm
  pub configure_vm : MutationAuthority → ConfigureVmRequest → Call S ProviderVm
  pub inspect_vm : VmLookup → Call S (Option ProviderVm)
  pub start_vm : MutationAuthority → ProviderVm → Call S (Unit {0})
  pub stop_vm : MutationAuthority → ProviderVm → Call S (Unit {0})
  pub remove_vm : MutationAuthority → ProviderVm → Call S (Unit {0})
