-- ===== src/Engine/Errors.antt =====
-- The errors of the engine (src/engine/mod.rs), of the state store (src/state/mod.rs) and of guest
-- transports (src/guest/mod.rs), without their texts and paths; `durable_error_code`.
use vm_cell_manager.Prelude.{String}
use vm_cell_manager.Provider.{ProviderError, ProviderPowerState}
use vm_cell_manager.Selection.Types.{
  RunSelectionError, unsupported_host, unsupported_host_architecture, ambiguous,
  incompatible_image_variant, accelerator_unavailable, architecture_mismatch,
  unsupported_guest_transport, contradictory_capability_evidence, undocumented_combination,
  unsupported_combination, tcg_requires_explicit_opt_in, impossible_provider_accelerator,
  plan_drift,
}

pub data StateError : Type 0 where
  io json not_found already_exists mutation_busy unsafe_runtime_path identity_mismatch : StateError
  unsupported_schema upgrade_required artifact_integrity : StateError
  guest_operation_integrity job_correlation_integrity : StateError

pub data GuestIoError : Type 0 where
  not_implemented invalid_request path_violation ownership_changed guest_not_ready : GuestIoError
  authentication_failed session_failed timeout output_limit : GuestIoError
  invalid_response partial_copy transport : GuestIoError

pub data EngineError : Type 0 where
  state : StateError → EngineError
  provider : ProviderError → EngineError
  run_selection : RunSelectionError → EngineError
  unsupported_provider provider_unavailable invalid_image image_integrity : EngineError
  image_conflict image_in_use invalid_cell_request lifecycle_conflict integrity : EngineError
  ownership_not_proven provider_drift : EngineError
  unexpected_power_state : ProviderPowerState → EngineError
  guest : GuestIoError → EngineError

-- `RunSelectionError::code`
unfoldable pub selection_code : RunSelectionError → String
selection_code unsupported_host = "vmcell.run_plan.host_unsupported"
selection_code unsupported_host_architecture = "vmcell.run_plan.host_unsupported"
selection_code ambiguous = "vmcell.run_plan.ambiguous"
selection_code incompatible_image_variant = "vmcell.run_plan.incompatible_image_variant"
selection_code RunSelectionError.provider_unavailable = "vmcell.run_plan.provider_unavailable"
selection_code accelerator_unavailable = "vmcell.run_plan.accelerator_unavailable"
selection_code architecture_mismatch = "vmcell.run_plan.architecture_mismatch"
selection_code unsupported_guest_transport = "vmcell.run_plan.guest_transport_unsupported"
selection_code contradictory_capability_evidence = "vmcell.run_plan.capability_conflict"
selection_code undocumented_combination = "vmcell.run_plan.undocumented_combination"
selection_code unsupported_combination = "vmcell.run_plan.unsupported_combination"
selection_code tcg_requires_explicit_opt_in = "vmcell.run_plan.tcg_requires_explicit_opt_in"
selection_code impossible_provider_accelerator = "vmcell.run_plan.impossible_provider_accelerator"
selection_code plan_drift = "vmcell.run_plan.drift"

unfoldable pub durable_error_code : EngineError → String
unfolding selection_code
durable_error_code (state _) = "vmcell.state.failed"
durable_error_code (provider ProviderError.timeout) = "vmcell.provider.timeout"
durable_error_code (provider ProviderError.output_limit) = "vmcell.provider.output_limit"
durable_error_code (provider _) = "vmcell.provider.failed"
durable_error_code (run_selection e) = selection_code e
durable_error_code unsupported_provider = "vmcell.provider.unsupported"
durable_error_code provider_unavailable = "vmcell.provider.unavailable"
durable_error_code invalid_image = "vmcell.image.invalid"
durable_error_code image_integrity = "vmcell.image.integrity"
durable_error_code image_conflict = "vmcell.image.conflict"
durable_error_code image_in_use = "vmcell.image.in_use"
durable_error_code invalid_cell_request = "vmcell.request.invalid"
durable_error_code lifecycle_conflict = "vmcell.lifecycle.conflict"
durable_error_code integrity = "vmcell.state.integrity"
durable_error_code ownership_not_proven = "vmcell.ownership.not_proven"
durable_error_code provider_drift = "vmcell.ownership.drift"
durable_error_code (unexpected_power_state _) = "vmcell.lifecycle.power_state"
durable_error_code (guest GuestIoError.timeout) = "vmcell.guest.timeout"
durable_error_code (guest GuestIoError.output_limit) = "vmcell.guest.output_limit"
durable_error_code (guest _) = "vmcell.guest.failed"
