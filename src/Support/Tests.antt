-- ===== src/Support/Tests.antt =====
-- The support matrix at concrete keys, and the theorems at inputs that meet their hypotheses.
use vm_cell_manager.Prelude.{
  true, false, [], ◌∷◌, ◌≡◌, ◌≢◌, ◌↔◌, ◌⊎◌, refl, All, Memᴰ, ok, err, String-discrete, nat-discrete,
  List-discrete,
}
use vm_cell_manager.Platform.{
  HostOs, GuestOs, x86_64, aarch64, qemu, kvm, qga, HostOs-discrete, GuestOs-discrete,
  Architecture-discrete, ProviderId-discrete, Accelerator-discrete, GuestTransportId-discrete,
  is_hardware, host_os_rank, architecture_rank, provider_rank, accelerator_rank, guest_os_rank,
  guest_transport_rank,
}
use vm_cell_manager.Support.Matrix.{
  SupportKey, SupportMatrixEntry, PathTests, AcceptanceScope-discrete, SupportStatus-discrete,
  untested, supported, unsupported, support_matrix, support_for, lookup_in, validate_support_matrix,
  validate_evidence_reference, combination_is_possible, requires_real_platform_evidence,
  undocumented_combination, missing_real_platform_evidence, rank_ltb, support_key_rank,
}
use vm_cell_manager.Support.Validated.{IsOrdered, IsSound, validate_support_matrix_iff}
use vm_cell_manager.Support.Lookup.{lookup_in_iff, support_matrix-IsOrdered, support_for_sound}

matrix_runs : Unit {0}
unfolding support_matrix support_for lookup_in validate_support_matrix validate_evidence_reference
    combination_is_possible requires_real_platform_evidence rank_ltb support_key_rank host_os_rank
    architecture_rank provider_rank accelerator_rank guest_os_rank guest_transport_rank is_hardware
    HostOs-discrete GuestOs-discrete Architecture-discrete ProviderId-discrete Accelerator-discrete
    GuestTransportId-discrete SupportStatus-discrete AcceptanceScope-discrete String-discrete
    nat-discrete List-discrete
matrix_runs = tt

abbrev kvm_linux : SupportKey
kvm_linux = record {
  host_os = HostOs.linux;
  host_architecture = x86_64;
  provider = qemu;
  accelerator = kvm;
  guest_os = GuestOs.linux;
  guest_architecture = x86_64;
  guest_transport = qga;
}

abbrev kvm_row : SupportMatrixEntry
kvm_row = record { key = kvm_linux; status = untested; acceptance_evidence = [] }

abbrev posix : PathTests
posix = record {
  is_absolute = λ _. false;
  only_normal_components = λ _. true;
  starts_with = λ _ _. false;
  ends_with = λ _ _. false;
}

kvm_is_listed : support_for kvm_linux ≡ ok kvm_row
unfolding matrix_runs
kvm_is_listed = refl

arm_is_undocumented :
    support_for (record kvm_linux { host_architecture = aarch64 }) ≡ err undocumented_combination
unfolding matrix_runs
arm_is_undocumented = refl

promotion_needs_evidence :
    validate_support_matrix posix (record kvm_row { status = supported } ∷ [])
    ≡ err (missing_real_platform_evidence kvm_linux)
unfolding matrix_runs
promotion_needs_evidence = refl

validate_support_matrix_iff_example :
    (validate_support_matrix posix support_matrix ≡ ok tt)
    ↔ ((support_matrix ≢ []) × IsOrdered support_matrix × All (IsSound posix) support_matrix)
validate_support_matrix_iff_example = validate_support_matrix_iff posix support_matrix

lookup_in_iff_example :
    (lookup_in support_matrix kvm_linux ≡ ok kvm_row)
    ↔ (Memᴰ kvm_row support_matrix × (kvm_row.key ≡ kvm_linux))
lookup_in_iff_example = lookup_in_iff support_matrix kvm_linux kvm_row support_matrix-IsOrdered

support_for_sound_example :
    Memᴰ kvm_row support_matrix
    × (kvm_row.key ≡ kvm_linux)
    × ((combination_is_possible kvm_linux ≡ true) ⊎ (kvm_row.status ≡ unsupported))
    × (requires_real_platform_evidence kvm_row.status ≡ false)
support_for_sound_example = support_for_sound kvm_linux kvm_row kvm_is_listed
