-- ===== src/Selection/Revalidate.antt =====
-- `revalidate_run_execution_plan` of src/core/run_selection.rs.
use vm_cell_manager.Prelude.{
  Bool, not, some, [], ◌∷◌, ◌||◌, ◌==◌, ◌!=◌, string_eq, nat_eq, option_eq, contains, filter,
  length, Result, ◌>>=◌, ◌>>◌, reject_if, map_err,
}
use vm_cell_manager.Platform.{
  provider_id, provider_str, accelerator_str, transport_str, guest_os_name, architecture_name,
  host_os_eq, guest_os_eq, architecture_eq, provider_id_eq,
}
use vm_cell_manager.Capability.{ready, probe_status_eq, ProviderProbe}
use vm_cell_manager.Image.{ImageRecord}
use vm_cell_manager.Support.Matrix.{SupportKey, unsupported, support_status_eq, support_for}
use vm_cell_manager.Selection.Types.{
  HostPlatform, RunExecutionPlan, RunSelectionError, provider_unavailable, accelerator_unavailable,
  architecture_mismatch, unsupported_guest_transport, undocumented_combination,
  unsupported_combination, plan_drift, run_plan_schema_version, run_plan_contract,
}
use vm_cell_manager.Selection.Probes.{validate_probe_snapshots}

-- The key under which the matrix is asked about a plan.
unfoldable pub plan_key : RunExecutionPlan → SupportKey
plan_key plan = record {
  host_os = plan.host_os;
  host_architecture = plan.host_architecture;
  provider = plan.provider;
  accelerator = plan.accelerator;
  guest_os = plan.guest_os;
  guest_architecture = plan.guest_architecture;
  guest_transport = plan.guest_transport;
}

-- The first condition: the plan against the host, the image and the probe's name.
unfoldable pub drifted : RunExecutionPlan → HostPlatform → ImageRecord → ProviderProbe → Bool
drifted plan host image probe =
    plan.schema_version != run_plan_schema_version
    || (plan.contract != run_plan_contract
        || (plan.authorizing
            || (plan.host_os != host.os
                || (plan.host_architecture != host.architecture
                    || (plan.image != image.id
                        || (plan.guest_os != image.guest_os
                            || (plan.guest_architecture != image.guest_arch
                                || (probe.name != provider_str plan.provider
                                    || length (
                                        filter
                                          (λ variant.
                                            provider_id variant.provider == some plan.provider)
                                          image.variants)
                                      != 1))))))))

-- The last part: the plan against the support matrix.
unfoldable pub revalidate_support : RunExecutionPlan → Result RunSelectionError (Unit {0})
revalidate_support plan = do
  entry ← map_err (λ _. undocumented_combination) (support_for (plan_key plan))
  reject_if (entry.status == unsupported) unsupported_combination
  reject_if (entry.status != plan.support_status) plan_drift

unfoldable pub revalidate_run_execution_plan :
    RunExecutionPlan
    → HostPlatform
    → ImageRecord
    → ProviderProbe
    → Result RunSelectionError (Unit {0})
revalidate_run_execution_plan plan host image probe = do
  reject_if (drifted plan host image probe) plan_drift
  validate_probe_snapshots (probe ∷ [])
  reject_if (probe.status != ready || not probe.available) provider_unavailable
  reject_if (not (contains probe.capabilities.accelerators (accelerator_str plan.accelerator)))
      accelerator_unavailable
  reject_if
      (not (contains probe.capabilities.guest_arch (architecture_name plan.guest_architecture)))
      architecture_mismatch
  reject_if
      (not (contains probe.capabilities.guest_os (guest_os_name plan.guest_os))
        || (not (contains probe.capabilities.guest_transports (transport_str plan.guest_transport))
            || not probe.capabilities.networkless_guest_exec))
      unsupported_guest_transport
  revalidate_support plan
