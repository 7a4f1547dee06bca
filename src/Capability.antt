-- ===== src/Capability.antt =====
-- src/core/capability.rs and the probe types of src/providers/mod.rs: what a provider says it can do.
use vm_cell_manager.Prelude.{
  ℕ, String, Bool, false, List, [], Eq, list_eq, string_eq, nat_eq, List-discrete, String-discrete,
  nat-discrete,
}

abbrev pub automation_schema_version : ℕ
automation_schema_version = 1

pub record ProviderCapabilities : Type 0 where
  pub schema_version : ℕ
  pub full_system_vm : Bool
  pub cow_overlay : Bool
  pub hardware_acceleration : Bool
  pub accelerators : List String
  pub guest_os : List String
  pub guest_arch : List String
  pub guest_transports : List String
  pub networkless_guest_exec : Bool

-- `ProviderCapabilities::unavailable`
abbrev pub unavailable_capabilities : ProviderCapabilities
unavailable_capabilities = record {
  schema_version = automation_schema_version;
  full_system_vm = false;
  cow_overlay = false;
  hardware_acceleration = false;
  accelerators = [];
  guest_os = [];
  guest_arch = [];
  guest_transports = [];
  networkless_guest_exec = false;
}

pub data ProviderProbeStatus : Type 0 where
  ready unsupported_host unavailable probe_failed : ProviderProbeStatus

unfoldable pub ProviderProbeStatus-discrete : Discrete ProviderProbeStatus
ProviderProbeStatus-discrete = hlevel

instance abbrev pub probe_status_eq : Eq ProviderProbeStatus
probe_status_eq = record { dec = ProviderProbeStatus-discrete }

unfoldable pub ProviderCapabilities-discrete : Discrete ProviderCapabilities
ProviderCapabilities-discrete = hlevel (nat-discrete, List-discrete String-discrete)

instance abbrev pub capabilities_eq : Eq ProviderCapabilities
capabilities_eq = record { dec = ProviderCapabilities-discrete }

pub record ProviderProbe : Type 0 where
  pub name : String
  pub status : ProviderProbeStatus
  pub available : Bool
  pub detail : String
  pub capabilities : ProviderCapabilities
