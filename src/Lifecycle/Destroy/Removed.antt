-- ===== src/Lifecycle/Destroy/Removed.antt =====
-- The destruction of a cell (src/engine/mod.rs): what it calls, and what its success means.
use vm_cell_manager.Prelude.{
  ◌≡◌, ◌≢◌, ◌∙◌, ap, refl, true, ◌==◌, String, Option, none, some, ◌∷◌, [], is_some, ok,
}
use vm_cell_manager.Host.{Uuid, Host}
use vm_cell_manager.Cell.{
  CellId, CellState, destroying, cell_state_eq, CellRecord, ProviderObjectIdentity,
}
use vm_cell_manager.Provider.{ProviderVm, power_state_eq, by_id, by_name}
use vm_cell_manager.Engine.Errors.{ownership_not_proven}
use vm_cell_manager.Engine.Local.{IsLocal}
use vm_cell_manager.Program.{
  ◌>>=◌, perform, acquire_mutation_lock, acquire_installation_authority, inspect_vm,
  pin_cell_runtime, runtime_entry_exists, now,
}
use vm_cell_manager.Program.Logic.{History}
use vm_cell_manager.Store.{redact_cell_diagnostic}
use vm_cell_manager.Lifecycle.{fail_if, moved, require_provider}
use vm_cell_manager.Lifecycle.Known.{known, IsStored}
use vm_cell_manager.Lifecycle.Permits.{Permits, MayWrite, Conforms}
use vm_cell_manager.Lifecycle.Permits.Steps.{
  step, either, check, ne_of_test, check_local, load, save, bind, fails,
}
use vm_cell_manager.Lifecycle.Destroy.Entered.{Entered, moved-IsOwned, saved-Entered}
use vm_cell_manager.Lifecycle.Destroy.Held.{Claims, claim_for_destroy_lem, power_down_lem}
use vm_cell_manager.Lifecycle.Destroy.{
  Claimed, destroying_phase, claim_for_destroy, power_down, destroy_claimed, destroy_present,
  remove_runtime, destroy_absent, destroy_object, destroy_found, destroy_live, destroy_cell_locked,
  destroy_cell,
}
use vm_cell_manager.Lifecycle.Destroy.Tombstone.{
  Destroyed, remove_object_lem, runtime_lem, destroy_tombstone_lem,
}

module _ (host : Host) (file_stem : Uuid → Option String) (name root : String) where
  destroy_claimed_lem :
      (install : Uuid) (c : Claimed) (id : CellId) (h : History)
      → Claims host file_stem name root install id (known h) c
      → Conforms host name root
          (Destroyed id)
          h
          (destroy_claimed host file_stem name root install c)
  unfolding destroy_claimed Permits Claims MayWrite
  destroy_claimed_lem install c id h (w, p, seen, same, o) = step now _ tt (λ t.
      let r = moved c.record_ destroying (destroying_phase c.provisioning) t in
      save host file_stem name root r _ (w.lock, tt)
        (λ h' e.
          bind (power_down host file_stem name root install r c.vm) _
            (power_down_lem host file_stem name root install r c.vm h'
              (moved-IsOwned host file_stem name root destroying (destroying_phase c.provisioning) t
                o)
              (saved-Entered host file_stem name root {r = c.record_} r e w)
              (ap (λ k. k.pinned) e ∙ p) (ap (λ k. k.seen) e ∙ seen))
            (λ vm h2 down.
              remove_object_lem host file_stem name root install r vm id h2 same refl down)))

  destroy_present_lem :
      (install : Uuid) (r : CellRecord) (vm : ProviderVm) (id : CellId) (h : History)
      → r.id ≡ id
      → r.state ≢ CellState.destroyed
      → IsLocal host name root install r
      → Entered (known h) install r
      → (known h).seen ≡ some vm
      → Conforms host name root
          (Destroyed id)
          h
          (destroy_present host file_stem name root install r vm)
  unfolding destroy_present Permits IsStored
  destroy_present_lem install r vm id h same live l w seen =
      step (pin_cell_runtime r.id r.ownership.configuration_path r.ownership.overlay_path) _ tt
        (λ _.
          bind (claim_for_destroy host file_stem name root r.phase r vm) _
            (claim_for_destroy_lem host file_stem name root install r.phase r vm id _ refl same live
              l (record { lock = w.lock; installation = w.installation; stored = w.stored }) refl
              seen)
            (λ c h1 claims. destroy_claimed_lem install c id h1 claims))

  destroy_absent_lem :
      (install : Uuid) (r : CellRecord) (id : CellId) (h : History)
      → r.id ≡ id
      → Entered (known h) install r
      → Conforms host name root (Destroyed id) h (destroy_absent host file_stem name root install r)
  unfolding destroy_absent Permits IsStored
  destroy_absent_lem install r id h same w =
      step (inspect_vm (by_name r.ownership.provider_object_name)) _ tt named
    where
      named :
          (named : Option ProviderVm)
          → Conforms host name root
              (Destroyed id)
              (record {
                op = inspect_vm (by_name r.ownership.provider_object_name);
                reply = ok named;
              }
                ∷ h)
              (fail_if (is_some named) ownership_not_proven >>= λ _.
                perform (runtime_entry_exists r.id) >>= λ exists.
                remove_runtime host file_stem name root install r exists)
      named (some _) = fails ownership_not_proven
      named none = step (runtime_entry_exists r.id) _ tt (λ exists.
          runtime_lem host file_stem name root install r id exists _ same
            (record { lock = w.lock; installation = w.installation; stored = w.stored }) refl)

  destroy_object_lem :
      (install : Uuid) (r : CellRecord) (i : Option ProviderObjectIdentity) (id : CellId)
      (h : History)
      → r.id ≡ id
      → r.state ≢ CellState.destroyed
      → IsLocal host name root install r
      → Entered (known h) install r
      → Conforms host name root
          (Destroyed id)
          h
          (destroy_object host file_stem name root install r i)
  unfolding destroy_object Permits IsStored
  destroy_object_lem install r none id h same live l w =
      step (inspect_vm (by_name r.ownership.provider_object_name)) _ tt
        (λ _. fails ownership_not_proven)
  destroy_object_lem install r (some i) id h same live l w =
      step (inspect_vm (by_id i.id)) _ tt found
    where
      found :
          (found : Option ProviderVm)
          → Conforms host name root
              (Destroyed id)
              (record { op = inspect_vm (by_id i.id); reply = ok found } ∷ h)
              (destroy_found host file_stem name root install r found)
      found none =
          destroy_absent_lem install r id _ same
            (record { lock = w.lock; installation = w.installation; stored = w.stored })
      found (some vm) =
          destroy_present_lem install r vm id _ same live l
            (record { lock = w.lock; installation = w.installation; stored = w.stored }) refl

  destroy_live_lem :
      (r : CellRecord) (id : CellId) (h : History)
      → r.id ≡ id
      → r.state ≢ CellState.destroyed
      → (known h).locked ≡ true
      → IsStored (known h) r
      → Conforms host name root (Destroyed id) h (destroy_live host file_stem name root r)
  unfolding destroy_live Permits IsStored
  destroy_live_lem r id h same live lock stored =
      step acquire_installation_authority _ tt (λ install. check_local r install _ (λ l.
        destroy_object_lem install r r.provider_object id _ same live l
          (record { lock = lock; installation = refl; stored = stored })))

  pub destroy_cell_locked_lem :
      (id : CellId) (h : History)
      → (known h).locked ≡ true
      → Conforms host name root (Destroyed id) h (destroy_cell_locked host file_stem name root id)
  unfolding destroy_cell_locked IsStored redact_cell_diagnostic
  destroy_cell_locked_lem id h lock = load host file_stem name root id _ (λ raw h' e same.
      let r = redact_cell_diagnostic raw in
      let stored : IsStored (known h') r = (raw, ap (λ k. k.durable) e, refl) in
      either (r.state == CellState.destroyed)
        (λ _. destroy_tombstone_lem host file_stem name root r id h' same stored)
        (λ live.
          destroy_live_lem r id h' same (ne_of_test _ _ live) (ap (λ k. k.locked) e ∙ lock) stored))

  -- On every path of `destroy_cell`, whatever each call answers, every call is permitted: a
  -- virtual machine is stopped only where it is proven to be the stored cell's own under the
  -- lock, the installation and the pinned runtime; it is removed only where in addition the
  -- intent to destroy is stored and it is off; it is claimed only where it is fresh; files go,
  -- and a tombstone is written, only once the provider has reported the cell's name free. Where
  -- the method succeeds, a tombstone of the cell is stored and the name was last reported free.
  pub destroy_cell-Conforms :
      (id : CellId)
      → Conforms host name root (Destroyed id) [] (destroy_cell host file_stem name root id)
  unfolding destroy_cell Permits
  destroy_cell-Conforms id =
      check (require_provider name) _
        (λ _ _. step acquire_mutation_lock _ tt (λ _. destroy_cell_locked_lem id _ refl))
