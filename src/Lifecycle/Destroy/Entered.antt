-- ===== src/Lifecycle/Destroy/Entered.antt =====
-- What a destruction (src/engine/mod.rs) holds of a record from the pinned installation on.
use vm_cell_manager.Prelude.{◌≡◌, ◌∙◌, ap, refl, true, inl, inr, ℕ, String, Option, some}
use vm_cell_manager.Host.{Uuid, Host}
use vm_cell_manager.Cell.{CellState, cell_state_eq, CellPhase, CellRecord}
use vm_cell_manager.Provider.{ProviderVm, power_state_eq}
use vm_cell_manager.Engine.Local.{IsLocal}
use vm_cell_manager.Engine.Proven.{IsOwned, IsFresh}
use vm_cell_manager.Store.{redact_cell_diagnostic}
use vm_cell_manager.Lifecycle.{moved}
use vm_cell_manager.Lifecycle.Known.{Known, IsStored}
use vm_cell_manager.Lifecycle.Permits.{Holding}

-- What a destruction holds of a record from the pinned installation on.
pub record Entered (k : Known) (install : Uuid) (r : CellRecord) : Type 0 where
  pub lock : k.locked ≡ true
  pub installation : k.installation ≡ some install
  pub stored : IsStored k r

abbrev pub Pinned : Known → CellRecord → Type 0
Pinned k r = k.pinned ≡ some (r.id, r.ownership.configuration_path, r.ownership.overlay_path)

module _ (host : Host) (file_stem : Uuid → Option String) (name root : String) where
  pub moved-IsOwned :
      {r : CellRecord} {vm : ProviderVm} (s : CellState) (p : CellPhase) (t : ℕ)
      → IsOwned host r vm
      → IsOwned host (moved r s p t) vm
  moved-IsOwned s p t o = record {
    machine = record {
      identity = o.machine.identity;
      object_name = o.machine.object_name;
      configuration = o.machine.configuration;
      disk = o.machine.disk;
      memory = o.machine.memory;
    };
    marker = o.marker;
  }

  pub fresh-IsOwned :
      {r : CellRecord} {vm : ProviderVm} → IsFresh host r vm true → IsOwned host r vm
  fresh-IsOwned f = record {
    machine = f.machine;
    marker = elim f.marker [ inl m ↦ m | inr (e, _) ↦ cc ];
  }

  pub holds_all :
      {k : Known} {install : Uuid} {r : CellRecord}
      → Entered k install r
      → IsLocal host name root install r
      → Pinned k r
      → Holding host name root k r
  holds_all {install = install} w l p = record {
    lock = w.lock;
    install = install;
    installation = w.installation;
    local = l;
    stored = w.stored;
    runtime = p;
  }

  -- After a save, the same is held of the record that was saved.
  pub saved-Entered :
      {k k' : Known} {install : Uuid} {r : CellRecord} (s : CellRecord)
      → k' ≡ record k { durable = some (redact_cell_diagnostic s) }
      → Entered k install r
      → Entered k' install s
  unfolding IsStored redact_cell_diagnostic
  saved-Entered s e w = record {
    lock = ap (λ k. k.locked) e ∙ w.lock;
    installation = ap (λ k. k.installation) e ∙ w.installation;
    stored = (redact_cell_diagnostic s, ap (λ k. k.durable) e, refl);
  }
