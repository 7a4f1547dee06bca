-- ===== src/Lifecycle/Destroy/Held.antt =====
-- A destruction (src/engine/mod.rs) from the claim of the virtual machine to the moment when it is
-- off.
use vm_cell_manager.Prelude.{
  ◌≡◌, ◌≢◌, ◌∙◌, ap, refl, true, false, ◌!=◌, String, Option, none, some, ◌∷◌, Bool, Result, ok,
  ok_or, eq_of_not,
}
use vm_cell_manager.Host.{Uuid, Host}
use vm_cell_manager.Cell.{
  CellId, CellState, cell_state_eq, CellPhase, intent_recorded, overlay_created,
  provider_object_created, provider_object_claimed, ready, destroying_provisioning, CellRecord,
}
use vm_cell_manager.Provider.{ProviderVm, off, power_state_eq, by_id, new_authority}
use vm_cell_manager.Engine.Errors.{
  EngineError, ownership_not_proven, provider_drift, unexpected_power_state,
}
use vm_cell_manager.Engine.Identity.{
  prove_ownership, prove_creation_identity, prove_destroy_identity,
}
use vm_cell_manager.Engine.Local.{IsLocal}
use vm_cell_manager.Engine.Proven.{
  IsOwned, prove_ownership_iff, prove_creation_identity-IsFresh, prove_destroy_identity_iff,
}
use vm_cell_manager.Program.{◌>>=◌, lift, pure, inspect_vm, claim_vm, stop_vm, now}
use vm_cell_manager.Program.Logic.{History}
use vm_cell_manager.Lifecycle.{fail_if, moved}
use vm_cell_manager.Lifecycle.Known.{Known, known, IsStored}
use vm_cell_manager.Lifecycle.Permits.{Permits, Conforms}
use vm_cell_manager.Lifecycle.Permits.Steps.{
  step, either, check, check_not, check_local, save, finishes, fails, live_MayWrite,
}
use vm_cell_manager.Lifecycle.Destroy.{
  Claimed, claim_created, claim_for_destroy, stop_for_destroy, power_down,
}
use vm_cell_manager.Lifecycle.Destroy.Entered.{
  Entered, Pinned, moved-IsOwned, fresh-IsOwned, holds_all, saved-Entered,
}

module _ (host : Host) (file_stem : Uuid → Option String) (name root : String) where
  -- What is known once the phase's proof succeeded.
  unfoldable pub Claims : Uuid → CellId → Known → Claimed → Type 0
  Claims install id k c =
      Entered k install c.record_
      × Pinned k c.record_
      × (k.seen ≡ some c.vm)
      × (c.record_.id ≡ id)
      × IsOwned host c.record_ c.vm

  claim_created_lem :
      (install : Uuid) (r : CellRecord) (vm : ProviderVm) (id : CellId) (h : History)
      → r.id ≡ id
      → r.phase ≡ provider_object_created
      → r.state ≢ CellState.destroyed
      → IsLocal host name root install r
      → Entered (known h) install r
      → Pinned (known h) r
      → (known h).seen ≡ some vm
      → Conforms host name root (Claims install id) h (claim_created host file_stem name root r vm)
  unfolding claim_created Permits Claims IsStored
  claim_created_lem install r vm id h same phase live l w p seen =
      check (prove_creation_identity host r vm false) _ (λ _ fresh.
        step
          (claim_vm (new_authority r)
            (record { expected = vm; ownership_marker = r.ownership.provider_marker }))
          _
          (record {
            r = r;
            holding = holds_all host file_stem name root w l p;
            authority = refl;
            proven = prove_creation_identity-IsFresh host r vm false fresh;
            current = seen;
            marker = refl;
            phase = phase;
          })
          (λ claimed. check (prove_creation_identity host r claimed true) _ (λ _ proven.
            step now _ tt (λ t.
              save host file_stem name root (moved r r.state provider_object_claimed t) _
                (w.lock, live_MayWrite host name root r.state _ _ live)
                (λ h' e. finishes _ (
                  saved-Entered host file_stem name root {r = r}
                      (moved r r.state provider_object_claimed t) e
                      (record { lock = w.lock; installation = w.installation; stored = w.stored }),
                  ap (λ k. k.pinned) e ∙ p,
                  ap (λ k. k.seen) e,
                  same,
                  moved-IsOwned host file_stem name root r.state provider_object_claimed t (
                      fresh-IsOwned host file_stem name root
                        (prove_creation_identity-IsFresh host r claimed true proven)),
                ))))))

  -- The branches that only prove the identity.
  proven_claim :
      (install : Uuid) (r : CellRecord) (vm : ProviderVm) (id : CellId) (provisioning : Bool)
      (h : History) (proof : Result EngineError (Unit {0}))
      → (proof ≡ ok tt → IsOwned host r vm)
      → r.id ≡ id
      → Entered (known h) install r
      → Pinned (known h) r
      → (known h).seen ≡ some vm
      → Conforms host name root
          (Claims install id)
          h
          (lift proof >>= λ _. pure (record { record_ = r; vm = vm; provisioning = provisioning }))
  unfolding Claims
  proven_claim install r vm id provisioning h proof o same w p seen =
      check proof _ (λ _ e. finishes _ (w, p, seen, same, o e))

  pub claim_for_destroy_lem :
      (install : Uuid) (phase : CellPhase) (r : CellRecord) (vm : ProviderVm) (id : CellId)
      (h : History)
      → r.phase ≡ phase
      → r.id ≡ id
      → r.state ≢ CellState.destroyed
      → IsLocal host name root install r
      → Entered (known h) install r
      → Pinned (known h) r
      → (known h).seen ≡ some vm
      → Conforms host name root
          (Claims install id)
          h
          (claim_for_destroy host file_stem name root phase r vm)
  unfolding claim_for_destroy
  claim_for_destroy_lem install provider_object_created r vm id h e same live l w p seen =
      claim_created_lem install r vm id h same e live l w p seen
  claim_for_destroy_lem install provider_object_claimed r vm id h e same live l w p seen =
      proven_claim install r vm id true h (prove_creation_identity host r vm true)
        (λ q.
          fresh-IsOwned host file_stem name root (prove_creation_identity-IsFresh host r vm true q))
        same w p seen
  claim_for_destroy_lem install destroying_provisioning r vm id h e same live l w p seen =
      proven_claim install r vm id true h (prove_destroy_identity host r vm)
        (λ q. (prove_destroy_identity_iff host r vm).0 q) same w p seen
  claim_for_destroy_lem install ready r vm id h e same live l w p seen =
      proven_claim install r vm id false h (prove_ownership host r vm)
        (λ q. ((prove_ownership_iff host r vm).0 q).owned) same w p seen
  claim_for_destroy_lem install CellPhase.destroying r vm id h e same live l w p seen =
      proven_claim install r vm id false h (prove_ownership host r vm)
        (λ q. ((prove_ownership_iff host r vm).0 q).owned) same w p seen
  claim_for_destroy_lem install intent_recorded r vm id h e same live l w p seen =
      fails ownership_not_proven
  claim_for_destroy_lem install overlay_created r vm id h e same live l w p seen =
      fails ownership_not_proven
  claim_for_destroy_lem install CellPhase.destroyed r vm id h e same live l w p seen =
      fails ownership_not_proven

  -- What is known once the virtual machine is off.
  unfoldable pub Down : Uuid → CellRecord → Known → ProviderVm → Type 0
  Down install r k vm =
      Entered k install r × Pinned k r × (k.seen ≡ some vm) × (vm.power_state ≡ off)

  stop_for_destroy_lem :
      (install : Uuid) (r : CellRecord) (vm : ProviderVm) (h : History)
      → IsOwned host r vm
      → Entered (known h) install r
      → Pinned (known h) r
      → (known h).seen ≡ some vm
      → Conforms host name root
          (Down install r)
          h
          (stop_for_destroy host file_stem name root install r vm)
  unfolding stop_for_destroy Permits Down IsStored
  stop_for_destroy_lem install r vm h o w p seen = check_local r install _ (λ l.
      step (stop_vm (new_authority r) vm) _
        (record {
          r = r;
          holding = holds_all host file_stem name root w l p;
          authority = refl;
          proven = o;
          current = seen;
        })
        (λ _. step (inspect_vm (by_id vm.id)) _ tt found))
    where
      found :
          (found : Option ProviderVm)
          → Conforms host name root
              (Down install r)
              (record { op = inspect_vm (by_id vm.id); reply = ok found }
                ∷ record { op = stop_vm (new_authority r) vm; reply = ok tt }
                ∷ h)
              (lift (ok_or provider_drift found) >>= λ after.
                lift (prove_destroy_identity host r after) >>= λ _.
                fail_if (after.power_state != off) (unexpected_power_state after.power_state)
                >>= λ _. pure after)
      found none = fails provider_drift
      found (some after) = check (prove_destroy_identity host r after) _ (λ _ _.
          check_not (after.power_state != off) (unexpected_power_state after.power_state) _
            (λ power. finishes after (
              record { lock = w.lock; installation = w.installation; stored = w.stored },
              p,
              refl,
              eq_of_not _ _ power,
            )))

  pub power_down_lem :
      (install : Uuid) (r : CellRecord) (vm : ProviderVm) (h : History)
      → IsOwned host r vm
      → Entered (known h) install r
      → Pinned (known h) r
      → (known h).seen ≡ some vm
      → Conforms host name root
          (Down install r)
          h
          (power_down host file_stem name root install r vm)
  unfolding power_down Down
  power_down_lem install r vm h o w p seen =
      either (vm.power_state != off) (λ _. stop_for_destroy_lem install r vm h o w p seen)
        (λ is_off. finishes vm (w, p, seen, eq_of_not _ _ is_off))
