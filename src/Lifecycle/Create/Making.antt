-- ===== src/Lifecycle/Create/Making.antt =====
-- The creation of a cell (src/engine/mod.rs) from the claim of its virtual machine on.
use vm_cell_manager.Prelude.{
  ◌≡◌, ◌∙◌, ap, refl, true, false, ◌!=◌, nat_eq, string_eq, ℕ, String, Option, some, Bool,
  reject_if,
}
use vm_cell_manager.Host.{Uuid, Host}
use vm_cell_manager.Cell.{
  CellId, CellState, creating, stopped, CellPhase, provider_object_created, provider_object_claimed,
  ready, CellSpec, CellRecord,
}
use vm_cell_manager.Provider.{ProviderVm, off, power_state_eq, new_authority}
use vm_cell_manager.Engine.Errors.{unexpected_power_state}
use vm_cell_manager.Engine.Identity.{prove_ownership, prove_creation_identity}
use vm_cell_manager.Engine.Proven.{
  IsIsolated, IsFresh, prove_ownership_iff, prove_creation_identity-IsFresh,
}
use vm_cell_manager.Program.{claim_vm, configure_vm, now}
use vm_cell_manager.Program.Logic.{History}
use vm_cell_manager.Store.{redact_cell_diagnostic}
use vm_cell_manager.Lifecycle.{moved}
use vm_cell_manager.Lifecycle.Known.{known, IsStored}
use vm_cell_manager.Lifecycle.Permits.{Permits, MayWrite, Conforms}
use vm_cell_manager.Lifecycle.Permits.Steps.{step, save, finishes, live_MayWrite}
use vm_cell_manager.Lifecycle.Destroy.Entered.{moved-IsOwned}
use vm_cell_manager.Lifecycle.Create.{
  finish_create, configure_new, record_claimed, claim_off, claim_new,
}
use vm_cell_manager.Lifecycle.Create.Held.{
  Created, Making, Making-Holding, moved-IsLocal, saved-Making, or_fail_lem, attempt_lem,
  seen-Making,
}

module _ (host : Host) (file_stem : Uuid → Option String) (name root : String) where
  moved-IsIsolated :
      {r : CellRecord} {vm : ProviderVm} (s : CellState) (p : CellPhase) (t : ℕ)
      → IsIsolated host r vm
      → IsIsolated host (moved r s p t) vm
  moved-IsIsolated s p t o = record {
    owned = moved-IsOwned host file_stem name root s p t o.owned;
    no_network = o.no_network;
    cpu = o.cpu;
  }

  finish_create_lem :
      {id : CellId} {spec : CellSpec} {install : Uuid} (r : CellRecord) (vm : ProviderVm)
      (h : History)
      → Making host file_stem name root id spec (known h) install r
      → (known h).seen ≡ some vm
      → IsIsolated host r vm
      → Conforms host name root
          (Created host file_stem name root id spec)
          h
          (finish_create host file_stem name root r)
  unfolding finish_create Permits MayWrite IsStored redact_cell_diagnostic
  finish_create_lem {install = install} r vm h w seen o = step now _ tt (λ t.
      save host file_stem name root (moved r stopped ready t) _ (w.lock, tt)
        (λ h' e. finishes _ (record {
          stored = (redact_cell_diagnostic (moved r stopped ready t), ap (λ k. k.durable) e, refl);
          same = w.same;
          requested = w.requested;
          state = refl;
          phase = refl;
          install = install;
          local = moved-IsLocal host file_stem name root stopped ready t w.local;
          vm = vm;
          current = ap (λ k. k.seen) e ∙ seen;
          isolated = moved-IsIsolated stopped ready t o;
        })))

  configure_new_lem :
      {id : CellId} {spec : CellSpec} {install : Uuid} (r : CellRecord) (vm : ProviderVm)
      (h : History)
      → Making host file_stem name root id spec (known h) install r
      → (known h).seen ≡ some vm
      → r.phase ≡ provider_object_claimed
      → IsFresh host r vm true
      → Conforms host name root
          (Created host file_stem name root id spec)
          h
          (configure_new host file_stem name root r vm)
  unfolding configure_new Permits
  configure_new_lem r vm h w seen phase fresh =
      attempt_lem host file_stem name root r
        (configure_vm (new_authority r) (record { expected = vm; cpu_count = r.spec.cpu_count })) _
        h
        (record {
          r = r;
          holding = Making-Holding host file_stem name root w;
          authority = refl;
          proven = fresh;
          current = seen;
          cpu = refl;
          phase = phase;
        })
        w.lock
        (λ after.
          or_fail_lem host file_stem name root r (prove_ownership host r after) _ _ w.lock (λ _ e.
            finish_create_lem r after _
              (seen-Making host file_stem name root (some after) (known h).missing (known h).vacant
                w)
              refl ((prove_ownership_iff host r after).0 e)))

  moved-IsFresh :
      {r : CellRecord} {vm : ProviderVm} {marked : Bool} (s : CellState) (p : CellPhase) (t : ℕ)
      → IsFresh host r vm marked
      → IsFresh host (moved r s p t) vm marked
  moved-IsFresh s p t f = record {
    machine = record {
      identity = f.machine.identity;
      object_name = f.machine.object_name;
      configuration = f.machine.configuration;
      disk = f.machine.disk;
      memory = f.machine.memory;
    };
    marker = f.marker;
    adapters = f.adapters;
    is_off = f.is_off;
  }

  record_claimed_lem :
      {id : CellId} {spec : CellSpec} {install : Uuid} (r : CellRecord) (vm : ProviderVm)
      (h : History)
      → Making host file_stem name root id spec (known h) install r
      → (known h).seen ≡ some vm
      → IsFresh host r vm true
      → Conforms host name root
          (Created host file_stem name root id spec)
          h
          (record_claimed host file_stem name root r vm)
  unfolding record_claimed Permits IsStored
  record_claimed_lem r vm h w seen fresh = step now _ tt (λ t.
      save host file_stem name root (moved r r.state provider_object_claimed t) _
        (w.lock, rw w.state (tt_MayWrite r.ownership.provider_object_name))
        (λ h' e.
          configure_new_lem (moved r r.state provider_object_claimed t) vm h'
            (saved-Making host file_stem name root provider_object_claimed t e w)
            (ap (λ k. k.seen) e ∙ seen) refl
            (moved-IsFresh r.state provider_object_claimed t fresh)))
    where
      tt_MayWrite : (n : String) → MayWrite host name root creating n (known h).vacant
      tt_MayWrite n = live_MayWrite host name root creating n _ (λ e. cc)

  claim_off_lem :
      {id : CellId} {spec : CellSpec} {install : Uuid} (r : CellRecord) (vm : ProviderVm)
      (h : History)
      → Making host file_stem name root id spec (known h) install r
      → (known h).seen ≡ some vm
      → r.phase ≡ provider_object_created
      → IsFresh host r vm false
      → Conforms host name root
          (Created host file_stem name root id spec)
          h
          (claim_off host file_stem name root r vm)
  unfolding claim_off Permits
  claim_off_lem r vm h w seen phase fresh =
      attempt_lem host file_stem name root r
        (claim_vm (new_authority r)
          (record { expected = vm; ownership_marker = r.ownership.provider_marker }))
        _ h
        (record {
          r = r;
          holding = Making-Holding host file_stem name root w;
          authority = refl;
          proven = fresh;
          current = seen;
          marker = refl;
          phase = phase;
        })
        w.lock
        (λ after.
          or_fail_lem host file_stem name root r (prove_creation_identity host r after true) _ _
            w.lock
            (λ _ e.
              record_claimed_lem r after _
                (seen-Making host file_stem name root (some after) (known h).missing
                  (known h).vacant w)
                refl (prove_creation_identity-IsFresh host r after true e)))

  pub claim_new_lem :
      {id : CellId} {spec : CellSpec} {install : Uuid} (r : CellRecord) (vm : ProviderVm)
      (h : History)
      → Making host file_stem name root id spec (known h) install r
      → (known h).seen ≡ some vm
      → r.phase ≡ provider_object_created
      → Conforms host name root
          (Created host file_stem name root id spec)
          h
          (claim_new host file_stem name root r vm)
  unfolding claim_new
  claim_new_lem r vm h w seen phase =
      or_fail_lem host file_stem name root r (prove_creation_identity host r vm false) _ h w.lock
        (λ _ e.
          or_fail_lem host file_stem name root r
            (reject_if (vm.power_state != off) (unexpected_power_state vm.power_state)) _ h w.lock
            (λ _ _.
              claim_off_lem r vm h w seen phase
                (prove_creation_identity-IsFresh host r vm false e)))
