-- ===== src/Provider/Normalized.antt =====
-- What `ProviderProbe::normalized` of src/providers/mod.rs makes of a provider's report.
use vm_cell_manager.Prelude.{true, false, ◌≡◌, ◌↔◌, ◌⊎◌, nat_eq, arith}
use vm_cell_manager.Capability.{
  ProviderProbe, ProviderCapabilities, ready, probe_status_eq, unavailable_capabilities,
  automation_schema_version,
}
use vm_cell_manager.Provider.{normalized}

-- The capabilities that a lifecycle cannot do without.
pub IsUsable : ProviderCapabilities → Type 0
IsUsable c =
    (c.schema_version ≡ automation_schema_version)
    × (c.full_system_vm ≡ true)
    × (c.cow_overlay ≡ true)

-- A normalized probe is available exactly when its status is ready. It is available with the
-- reported capabilities, which are usable, or it is not and has the unavailable ones.
pub normalized-IsUsable :
    (p : ProviderProbe)
    → ((normalized p).available ≡ true ↔ (normalized p).status ≡ ready)
      × (((normalized p).available ≡ true
            × IsUsable (normalized p).capabilities
            × (normalized p).capabilities ≡ p.capabilities)
          ⊎ ((normalized p).available ≡ false
              × (normalized p).capabilities ≡ unavailable_capabilities))
unfolding normalized IsUsable
normalized-IsUsable p = ground arith

-- Normalizing a probe twice is normalizing it once.
normalized_idempotent : (p : ProviderProbe) → normalized (normalized p) ≡ normalized p
unfolding normalized
normalized_idempotent p = ground arith
