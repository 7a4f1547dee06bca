-- ===== src/Lifecycle/Power/Started.antt =====
-- The start and the stop of a cell (src/engine/mod.rs): what they call, and what their success means.
use vm_cell_manager.Prelude.{
  ◌≡◌, ◌∙◌, ap, refl, String, Option, ◌==◌, ◌!=◌, ◌&&◌, ◌∷◌, [], string_eq,
}
use vm_cell_manager.Host.{Uuid, Host}
use vm_cell_manager.Cell.{CellId, CellState, running, stopped, cell_state_eq, CellRecord}
use vm_cell_manager.Provider.{
  ProviderVm, ProviderPowerState, off, paused, saved, other, power_state_eq, new_authority,
}
use vm_cell_manager.Engine.Errors.{unexpected_power_state}
use vm_cell_manager.Engine.Proven.{prove_ownership_iff}
use vm_cell_manager.Program.{
  Program, ◌>>=◌, lift, perform, acquire_mutation_lock, acquire_installation_authority,
  pin_cell_runtime, start_vm, stop_vm,
}
use vm_cell_manager.Program.Logic.{History}
use vm_cell_manager.Store.{redact_cell_diagnostic}
use vm_cell_manager.Store.Files.{load_cell}
use vm_cell_manager.Lifecycle.{
  OperationReport, require_lifecycle_state, require_provider, exact_owned_vm,
}
use vm_cell_manager.Lifecycle.Known.{Known, known, IsStored}
use vm_cell_manager.Lifecycle.Permits.{Permits, MayWrite, Conforms}
use vm_cell_manager.Lifecycle.Permits.Steps.{
  step, either, check, check_local, load, bind, fails, Owned, exact_owned_vm_lem,
}
use vm_cell_manager.Lifecycle.Power.{
  verify_parent, power_on, start_from, start_cell, power_off, stop_from, stop_cell,
}
use vm_cell_manager.Lifecycle.Power.Confirmed.{
  Reported, Ready, verify_parent_lem, confirm_lem, settle_only,
}

module _ (host : Host) (file_stem : Uuid → Option String) (name root : String) where
  power_on_lem :
      (r : CellRecord) (vm : ProviderVm) (id : CellId) (h : History)
      → r.id ≡ id
      → Ready host (known h) r vm
      → Conforms host name root
          (Reported host running ProviderPowerState.running id)
          h
          (power_on host file_stem name root r vm)
  unfolding power_on Permits IsStored MayWrite
  power_on_lem r vm id h same w =
      bind (verify_parent r) _ (verify_parent_lem host file_stem name root r h) (λ _ h1 e.
        step acquire_installation_authority _ tt (λ install. check_local r install _ (λ l.
          step (pin_cell_runtime r.id r.ownership.configuration_path r.ownership.overlay_path) _ tt
            (λ _.
              let lock = ap (λ k. k.locked) e ∙ w.lock in
              let stored : IsStored (known h1) r =
                (w.stored.0, ap (λ k. k.durable) e ∙ w.stored.1, w.stored.2) in
              step (start_vm (new_authority r) vm) _
                (record {
                  r = r;
                  holding = record {
                    lock = lock;
                    install = install;
                    installation = refl;
                    local = l;
                    stored = stored;
                    runtime = refl;
                  };
                  authority = refl;
                  proven = (prove_ownership_iff host r vm).0 w.proven;
                  current = ap (λ k. k.seen) e ∙ w.current;
                })
                (λ _.
                  confirm_lem host file_stem name root running ProviderPowerState.running r id _
                    same lock stored tt)))))

  power_off_lem :
      (r : CellRecord) (vm : ProviderVm) (id : CellId) (h : History)
      → r.id ≡ id
      → Ready host (known h) r vm
      → Conforms host name root
          (Reported host stopped off id)
          h
          (power_off host file_stem name root r vm)
  unfolding power_off Permits IsStored MayWrite
  power_off_lem r vm id h same w = step acquire_installation_authority _ tt (λ install.
      check_local r install _ (λ l.
        step (pin_cell_runtime r.id r.ownership.configuration_path r.ownership.overlay_path) _ tt
          (λ _.
            step (stop_vm (new_authority r) vm) _
              (record {
                r = r;
                holding = record {
                  lock = w.lock;
                  install = install;
                  installation = refl;
                  local = l;
                  stored = w.stored;
                  runtime = refl;
                };
                authority = refl;
                proven = ((prove_ownership_iff host r vm).0 w.proven).owned;
                current = w.current;
              })
              (λ _.
                confirm_lem host file_stem name root stopped off r id _ same w.lock w.stored tt))))

  start_from_lem :
      (p : ProviderPowerState) (r : CellRecord) (vm : ProviderVm) (id : CellId) (h : History)
      → r.id ≡ id
      → vm.power_state ≡ p
      → Ready host (known h) r vm
      → Conforms host name root
          (Reported host running ProviderPowerState.running id)
          h
          (start_from host file_stem name root p r vm)
  unfolding start_from MayWrite
  start_from_lem ProviderPowerState.running r vm id h same power w =
      settle_only host file_stem name root running ProviderPowerState.running r vm id _ h same power
        w tt
  start_from_lem off r vm id h same power w =
      either (r.state != CellState.destroyed) (λ _. power_on_lem r vm id h same w)
        (λ _. fails (unexpected_power_state off))
  start_from_lem paused r vm id h same power w =
      either (r.provider == "qemu" && r.state != CellState.destroyed)
        (λ _. power_on_lem r vm id h same w) (λ _. fails (unexpected_power_state paused))
  start_from_lem saved r vm id h same power w = fails (unexpected_power_state saved)
  start_from_lem (other s) r vm id h same power w = fails (unexpected_power_state (other s))

  stop_from_lem :
      (p : ProviderPowerState) (r : CellRecord) (vm : ProviderVm) (id : CellId) (h : History)
      → r.id ≡ id
      → vm.power_state ≡ p
      → Ready host (known h) r vm
      → Conforms host name root
          (Reported host stopped off id)
          h
          (stop_from host file_stem name root p r vm)
  unfolding stop_from MayWrite
  stop_from_lem off r vm id h same power w =
      settle_only host file_stem name root stopped off r vm id _ h same power w tt
  stop_from_lem ProviderPowerState.running r vm id h same power w = power_off_lem r vm id h same w
  stop_from_lem paused r vm id h same power w = fails (unexpected_power_state paused)
  stop_from_lem saved r vm id h same power w = fails (unexpected_power_state saved)
  stop_from_lem (other s) r vm id h same power w = fails (unexpected_power_state (other s))

  -- What a start and a stop do first.
  opened :
      {R : Known → OperationReport → Type 0} (id : CellId)
      (f : CellRecord → ProviderVm → Program OperationReport)
      → ((r : CellRecord) (vm : ProviderVm) (h : History)
          → r.id ≡ id
          → Ready host (known h) r vm
          → Conforms host name root R h (f r vm))
      → Conforms host name root R [] (
          lift (require_provider name) >>= λ _. perform acquire_mutation_lock >>= λ _.
          load_cell host file_stem id >>= λ r.
          lift (require_lifecycle_state r (stopped ∷ running ∷ [])) >>= λ _.
          exact_owned_vm host file_stem name root r >>= λ vm. f r vm)
  unfolding Owned IsStored Permits redact_cell_diagnostic
  opened id f w = check (require_provider name) _ (λ _ _. step acquire_mutation_lock _ tt (λ _.
      load host file_stem name root id _ (λ raw h e same.
        let r = redact_cell_diagnostic raw in
        check (require_lifecycle_state r (stopped ∷ running ∷ [])) _ (λ _ _.
          bind (exact_owned_vm host file_stem name root r) _
            (exact_owned_vm_lem host file_stem name root r h)
            (λ vm h1 (e1, proven). w r vm h1 same (record {
              lock = ap (λ k. k.locked) e1 ∙ ap (λ k. k.locked) e;
              stored = (raw, ap (λ k. k.durable) e1 ∙ ap (λ k. k.durable) e, refl);
              current = ap (λ k. k.seen) e1;
              proven = proven;
            }))))))

  -- On every path of `start_cell`, whatever each call answers, every call is permitted: the
  -- virtual machine is started only under the lock, the installation and the pinned runtime, with
  -- the authority of the stored record of this installation, and where the last snapshot proves
  -- it to be the cell's own and isolated. Where the method succeeds, the cell is stored as
  -- running and ready, and the last snapshot is one of its own isolated virtual machine, running.
  pub start_cell-Conforms :
      (id : CellId)
      → Conforms host name root
          (Reported host running ProviderPowerState.running id)
          []
          (start_cell host file_stem name root id)
  unfolding start_cell
  start_cell-Conforms id =
      opened id (λ r vm. start_from host file_stem name root vm.power_state r vm)
        (λ r vm h same w. start_from_lem vm.power_state r vm id h same refl w)

  -- On every path of `stop_cell`, whatever each call answers, every call is permitted: the
  -- virtual machine is stopped only under the lock, the installation and the pinned runtime, with
  -- the authority of the stored record of this installation, and where the last snapshot proves
  -- it to be the cell's own. Where the method succeeds, the cell is stored as stopped and ready,
  -- and the last snapshot is one of its own isolated virtual machine, off.
  pub stop_cell-Conforms :
      (id : CellId)
      → Conforms host name root
          (Reported host stopped off id)
          []
          (stop_cell host file_stem name root id)
  unfolding stop_cell
  stop_cell-Conforms id =
      opened id (λ r vm. stop_from host file_stem name root vm.power_state r vm)
        (λ r vm h same w. stop_from_lem vm.power_state r vm id h same refl w)
