-- ===== src/Provider/Tests.antt =====
-- A provider's report that omits the overlay capability.
use vm_cell_manager.Prelude.{true, false, ◌≡◌, ◌↔◌, ◌⊎◌, refl, nat-discrete}
use vm_cell_manager.Capability.{
  ProviderProbe, ready, probe_failed, ProviderProbeStatus-discrete, unavailable_capabilities,
}
use vm_cell_manager.Provider.{normalized}
use vm_cell_manager.Provider.Normalized.{IsUsable, normalized-IsUsable}

abbrev without_overlay : ProviderProbe
without_overlay = record {
  name = "qemu";
  status = ready;
  available = true;
  detail = "";
  capabilities = record unavailable_capabilities { full_system_vm = true };
}

omission_is_a_failure : (normalized without_overlay).status ≡ probe_failed
unfolding normalized nat-discrete ProviderProbeStatus-discrete
omission_is_a_failure = refl

normalized-IsUsable_example :
    ((normalized without_overlay).available ≡ true ↔ (normalized without_overlay).status ≡ ready)
    × (((normalized without_overlay).available ≡ true
          × IsUsable (normalized without_overlay).capabilities
          × (normalized without_overlay).capabilities ≡ without_overlay.capabilities)
        ⊎ ((normalized without_overlay).available ≡ false
            × (normalized without_overlay).capabilities ≡ unavailable_capabilities))
normalized-IsUsable_example = normalized-IsUsable without_overlay
