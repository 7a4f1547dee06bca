-- ===== src/Selection/Tests.antt =====
-- A Linux host with a ready QEMU probe, and the theorems on selection there.
use vm_cell_manager.Prelude.{
  true, false, none, some, [], ◌∷◌, ◌≡◌, refl, ok, err, String-discrete, nat-discrete,
  List-discrete, Option-discrete, Bool-discrete, find, ◌==◌, string_eq,
}
use vm_cell_manager.Platform.{
  HostOs, GuestOs, x86_64, qemu, kvm, tcg, qga, HostOs-discrete, GuestOs-discrete,
  Architecture-discrete, ProviderId-discrete, Accelerator-discrete, GuestTransportId-discrete,
  provider_id, provider_str, provider_rank, accelerator_str, transport_str, architecture_name,
  guest_os_name,
}
use vm_cell_manager.Image.{ImageRecord}
use vm_cell_manager.Capability.{ProviderProbe, ready, ProviderProbeStatus-discrete}
use vm_cell_manager.Support.Matrix.{
  SupportStatus-discrete, untested, development_only, support_matrix, support_for, lookup_in,
}
use vm_cell_manager.Selection.Types.{
  HostPlatform, RunSelectionIntent, RequestedAccelerator, RequestedAccelerator-discrete,
  RunExecutionPlan, exact, native_default, explicit_cli, tcg_requires_explicit_opt_in,
  run_plan_contract,
}
use vm_cell_manager.Selection.Probes.{
  has_duplicates, malformed, accelerators_match_provider, validate_ready, validate_probe,
  validate_probe_snapshots,
}
use vm_cell_manager.Selection.Resolve.{
  validate_tcg_intent, selected_provider, selection_source, validate_variants,
  native_qemu_accelerator, native_provider_rank, accelerator_for, rejection_error, plan_for,
  row_matches, consider_row, consider_rows, consider_matching, consider_probe, consider_provider,
  collect, sort_by_rank, choose_sorted, resolve_with_matrix, resolve_run_execution_plan,
}
use vm_cell_manager.Selection.Revalidate.{revalidate_run_execution_plan}
use vm_cell_manager.Selection.Chosen.{
  IsChecked, resolve-IsChecked, resolve_tcg, resolve_explicit_provider,
  resolve_explicit_accelerator,
}
use vm_cell_manager.Selection.Agreement.{revalidate-resolve}

selection_runs : Unit {0}
unfolding has_duplicates malformed accelerators_match_provider validate_ready validate_probe
    validate_probe_snapshots validate_tcg_intent selected_provider selection_source
    validate_variants native_qemu_accelerator native_provider_rank accelerator_for rejection_error
    plan_for row_matches consider_row consider_rows consider_matching consider_probe
    consider_provider collect sort_by_rank choose_sorted resolve_with_matrix
    resolve_run_execution_plan support_matrix support_for lookup_in exact HostOs-discrete
    GuestOs-discrete Architecture-discrete ProviderId-discrete Accelerator-discrete
    GuestTransportId-discrete SupportStatus-discrete String-discrete nat-discrete List-discrete
    Option-discrete Bool-discrete ProviderProbeStatus-discrete RequestedAccelerator-discrete
    provider_id provider_str provider_rank accelerator_str transport_str architecture_name
    guest_os_name
selection_runs = tt

abbrev linux_host : HostPlatform
linux_host = record { os = HostOs.linux; architecture = x86_64 }

abbrev qemu_image : ImageRecord
qemu_image = record {
  schema_version = 1;
  id = "linux-qemu";
  guest_os = GuestOs.linux;
  guest_arch = x86_64;
  variants =
      record {
        provider = "qemu";
        disk_format = "qcow2";
        path = "immutable.qcow2";
        sha256 = "aa";
        file_size = 1024;
      }
      ∷ [];
  registered_at = 0;
}

abbrev qemu_probe : ProviderProbe
qemu_probe = record {
  name = "qemu";
  status = ready;
  available = true;
  detail = "test evidence";
  capabilities = record {
    schema_version = 1;
    full_system_vm = true;
    cow_overlay = true;
    hardware_acceleration = true;
    accelerators = "kvm" ∷ "tcg" ∷ [];
    guest_os = "linux" ∷ [];
    guest_arch = "x86_64" ∷ [];
    guest_transports = "qga" ∷ [];
    networkless_guest_exec = true;
  };
}

abbrev no_wish : RunSelectionIntent
no_wish = record {
  explicit_provider = none;
  config_provider_preference = none;
  explicit_accelerator = none;
  allow_tcg = false;
}

abbrev wants_qemu : RunSelectionIntent
wants_qemu = record no_wish { explicit_provider = some qemu }

abbrev wants_tcg : RunSelectionIntent
wants_tcg = record no_wish {
  explicit_accelerator = some RequestedAccelerator.tcg;
  allow_tcg = true;
}

abbrev kvm_plan : RunExecutionPlan
kvm_plan = record {
  schema_version = 1;
  contract = run_plan_contract;
  image = "linux-qemu";
  host_os = HostOs.linux;
  host_architecture = x86_64;
  guest_os = GuestOs.linux;
  guest_architecture = x86_64;
  provider = qemu;
  accelerator = kvm;
  guest_transport = qga;
  support_status = untested;
  selection_source = native_default;
  authorizing = false;
}

abbrev tcg_plan : RunExecutionPlan
tcg_plan = record kvm_plan {
  accelerator = tcg;
  support_status = development_only;
  selection_source = explicit_cli;
}

resolves_to_kvm :
    resolve_run_execution_plan linux_host qemu_image (qemu_probe ∷ []) no_wish ≡ ok kvm_plan
unfolding selection_runs
resolves_to_kvm = refl

resolves_to_tcg :
    resolve_with_matrix linux_host qemu_image (qemu_probe ∷ []) wants_tcg support_matrix
    ≡ ok tcg_plan
unfolding selection_runs
resolves_to_tcg = refl

tcg_without_consent :
    resolve_run_execution_plan linux_host qemu_image
      (qemu_probe ∷ [])
      (record wants_tcg { allow_tcg = false })
    ≡ err tcg_requires_explicit_opt_in
unfolding selection_runs
tcg_without_consent = refl

resolve-IsChecked_example :
    IsChecked linux_host qemu_image (qemu_probe ∷ []) wants_tcg support_matrix tcg_plan
resolve-IsChecked_example =
    resolve-IsChecked linux_host qemu_image (qemu_probe ∷ []) wants_tcg support_matrix tcg_plan
      resolves_to_tcg

resolve_tcg_example :
    (wants_tcg.explicit_accelerator ≡ some RequestedAccelerator.tcg) × (wants_tcg.allow_tcg ≡ true)
resolve_tcg_example =
    resolve_tcg linux_host qemu_image (qemu_probe ∷ []) wants_tcg support_matrix tcg_plan
      resolves_to_tcg refl

qemu_was_asked : wants_qemu.explicit_provider ≡ some qemu
qemu_was_asked = refl

resolves_for_qemu :
    resolve_with_matrix linux_host qemu_image (qemu_probe ∷ []) wants_qemu support_matrix
    ≡ ok (record kvm_plan { selection_source = explicit_cli })
unfolding selection_runs
resolves_for_qemu = refl

resolve_explicit_provider_example : kvm_plan.provider ≡ qemu
resolve_explicit_provider_example =
    resolve_explicit_provider linux_host qemu_image (qemu_probe ∷ []) wants_qemu support_matrix
      (record kvm_plan { selection_source = explicit_cli }) resolves_for_qemu qemu qemu_was_asked

tcg_is_exact : exact RequestedAccelerator.tcg ≡ some tcg
unfolding exact
tcg_is_exact = refl

resolve_explicit_accelerator_example : (tcg_plan.provider ≡ qemu) × (tcg_plan.accelerator ≡ tcg)
resolve_explicit_accelerator_example =
    resolve_explicit_accelerator linux_host qemu_image (qemu_probe ∷ []) wants_tcg support_matrix
      tcg_plan resolves_to_tcg RequestedAccelerator.tcg tcg refl tcg_is_exact

qemu_probe_found :
    find (λ p. p.name == provider_str kvm_plan.provider) (qemu_probe ∷ []) ≡ some qemu_probe
unfolding selection_runs
qemu_probe_found = refl

revalidate-resolve_example :
    revalidate_run_execution_plan kvm_plan linux_host qemu_image qemu_probe ≡ ok tt
revalidate-resolve_example =
    revalidate-resolve linux_host qemu_image (qemu_probe ∷ []) no_wish kvm_plan qemu_probe
      resolves_to_kvm qemu_probe_found
