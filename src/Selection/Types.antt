-- ===== src/Selection/Types.antt =====
-- The data of src/core/run_selection.rs.
use vm_cell_manager.Prelude.{ℕ, String, Bool, false, Option, none, some, Eq}
use vm_cell_manager.Platform.{
  HostOs, GuestOs, Architecture, ProviderId, Accelerator, GuestTransportId,
}
use vm_cell_manager.Image.{ImageId}
use vm_cell_manager.Support.Matrix.{SupportStatus}

abbrev pub run_plan_schema_version : ℕ
run_plan_schema_version = 1

abbrev pub run_plan_contract : String
run_plan_contract = "vmcell.run-plan.v1"

pub record HostPlatform : Type 0 where
  pub os : HostOs
  pub architecture : Architecture

pub data RequestedAccelerator : Type 0 where
  auto whpx kvm hvf tcg : RequestedAccelerator

unfoldable pub RequestedAccelerator-discrete : Discrete RequestedAccelerator
RequestedAccelerator-discrete = hlevel

instance abbrev pub requested_eq : Eq RequestedAccelerator
requested_eq = record { dec = RequestedAccelerator-discrete }

-- `RequestedAccelerator::exact`
unfoldable pub exact : RequestedAccelerator → Option Accelerator
exact auto = none
exact whpx = some Accelerator.whpx
exact kvm = some Accelerator.kvm
exact hvf = some Accelerator.hvf
exact tcg = some Accelerator.tcg

pub record RunSelectionIntent : Type 0 where
  pub explicit_provider : Option ProviderId
  pub config_provider_preference : Option ProviderId
  pub explicit_accelerator : Option RequestedAccelerator
  pub allow_tcg : Bool

pub data RunSelectionSource : Type 0 where
  explicit_cli config_preference native_default : RunSelectionSource

pub record RunExecutionPlan : Type 0 where
  pub schema_version : ℕ
  pub contract : String
  pub image : ImageId
  pub host_os : HostOs
  pub host_architecture : Architecture
  pub guest_os : GuestOs
  pub guest_architecture : Architecture
  pub provider : ProviderId
  pub accelerator : Accelerator
  pub guest_transport : GuestTransportId
  pub support_status : SupportStatus
  pub selection_source : RunSelectionSource
  pub authorizing : Bool

pub data RunSelectionError : Type 0 where
  unsupported_host unsupported_host_architecture ambiguous : RunSelectionError
  incompatible_image_variant provider_unavailable accelerator_unavailable : RunSelectionError
  architecture_mismatch unsupported_guest_transport contradictory_capability_evidence :
      RunSelectionError
  undocumented_combination unsupported_combination tcg_requires_explicit_opt_in : RunSelectionError
  impossible_provider_accelerator plan_drift : RunSelectionError

-- Why variants were passed over.
pub record Rejections : Type 0 where
  pub provider_unavailable : Bool
  pub accelerator_unavailable : Bool
  pub architecture_mismatch : Bool
  pub transport_unsupported : Bool
  pub undocumented : Bool
  pub unsupported : Bool

-- `Rejections::default()`
abbrev pub no_rejections : Rejections
no_rejections = record {
  provider_unavailable = false;
  accelerator_unavailable = false;
  architecture_mismatch = false;
  transport_unsupported = false;
  undocumented = false;
  unsupported = false;
}
