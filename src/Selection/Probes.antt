-- ===== src/Selection/Probes.antt =====
-- `validate_probe_snapshots` and `has_duplicates` of src/core/run_selection.rs.
use vm_cell_manager.Prelude.{
  ℕ, String, Bool, false, not, List, [], ◌∷◌, ◌&&◌, ◌||◌, ◌==◌, ◌!=◌, string_eq, nat_eq, bool_eq,
  list_eq, if◌then◌else◌, any, contains, Result, ok, ◌>>=◌, ◌>>◌, reject_if, ok_or,
}
use vm_cell_manager.Platform.{ProviderId, hyperv, qemu, provider_id, provider_rank}
use vm_cell_manager.Capability.{
  ProviderCapabilities, unavailable_capabilities, ready, probe_status_eq, capabilities_eq,
  ProviderProbe, automation_schema_version,
}
use vm_cell_manager.Selection.Types.{RunSelectionError, contradictory_capability_evidence}

-- `unique` holds the values inserted so far.
has_duplicates_from : List String → List String → Bool
has_duplicates_from unique [] = false
has_duplicates_from unique (value ∷ values) =
    contains unique value || has_duplicates_from (value ∷ unique) values

unfoldable pub has_duplicates : List String → Bool
unfolding has_duplicates_from
has_duplicates values = has_duplicates_from [] values

-- `values.iter().any(|value| !matches!(value, known))`
abbrev pub any_unknown : List String → List String → Bool
any_unknown known values = any (λ value. not (contains known value)) values

-- The long condition on the capabilities of a ready provider.
unfoldable pub malformed : ProviderCapabilities → Bool
malformed c =
    c.schema_version != automation_schema_version
    || (not c.full_system_vm
        || (not c.cow_overlay
            || (has_duplicates c.accelerators
                || (has_duplicates c.guest_os
                    || (has_duplicates c.guest_arch
                        || (has_duplicates c.guest_transports
                            || (any_unknown ("hyper-v" ∷ "whpx" ∷ "kvm" ∷ "hvf" ∷ "tcg" ∷ [])
                                  c.accelerators
                                || (any_unknown ("windows" ∷ "linux" ∷ "macos" ∷ []) c.guest_os
                                    || (any_unknown ("x86_64" ∷ "aarch64" ∷ []) c.guest_arch
                                        || any_unknown ("powershell-direct" ∷ "qga" ∷ "ssh" ∷ [])
                                            c.guest_transports)))))))))

unfoldable pub accelerators_match_provider : ProviderId → ProviderCapabilities → Bool
accelerators_match_provider hyperv c = c.accelerators == ("hyper-v" ∷ []) && c.hardware_acceleration
accelerators_match_provider qemu c =
    let hardware =
      any (λ value. contains ("hyper-v" ∷ "whpx" ∷ "kvm" ∷ "hvf" ∷ []) value) c.accelerators in
    not (contains c.accelerators "hyper-v") && c.hardware_acceleration == hardware

-- The end of a round, for a ready provider.
unfoldable pub validate_ready :
    ProviderId → ProviderCapabilities → Result RunSelectionError (Unit {0})
validate_ready provider c = do
  reject_if (malformed c) contradictory_capability_evidence
  reject_if (not (accelerators_match_provider provider c)) contradictory_capability_evidence

unfoldable pub validate_capabilities :
    ProviderId → ProviderProbe → Result RunSelectionError (Unit {0})
unfolding validate_ready
validate_capabilities provider probe =
    if probe.status != ready
    then reject_if (probe.capabilities != unavailable_capabilities)
        contradictory_capability_evidence
    else validate_ready provider probe.capabilities

-- One round of the loop; `seen` holds the provider ranks inserted so far. The result is the rank
-- that the round inserts.
unfoldable pub validate_probe : List ℕ → ProviderProbe → Result RunSelectionError ℕ
unfolding validate_capabilities
validate_probe seen probe = do
  provider ← ok_or contradictory_capability_evidence (provider_id probe.name)
  reject_if (contains seen (provider_rank provider) || probe.available != (probe.status == ready))
      contradictory_capability_evidence
  validate_capabilities provider probe
  ok (provider_rank provider)

unfoldable pub validate_probes_from :
    List ℕ → List ProviderProbe → Result RunSelectionError (Unit {0})
validate_probes_from seen [] = ok tt
validate_probes_from seen (probe ∷ probes) =
    validate_probe seen probe >>= λ rank. validate_probes_from (rank ∷ seen) probes

unfoldable pub validate_probe_snapshots : List ProviderProbe → Result RunSelectionError (Unit {0})
unfolding validate_probes_from validate_probe
validate_probe_snapshots probes = validate_probes_from [] probes
