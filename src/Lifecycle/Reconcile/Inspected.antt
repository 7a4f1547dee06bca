-- ===== src/Lifecycle/Reconcile/Inspected.antt =====
-- What the methods that reconcile a cell (src/engine/mod.rs) call, and what their success means.
use vm_cell_manager.Prelude.{
  ◌≡◌, inl, inr, refl, true, false, ◌==◌, String, Option, none, some, ◌∷◌, Bool, Result, ok, err,
  eq_of_test, string_eq,
}
use vm_cell_manager.Host.{Uuid, Host}
use vm_cell_manager.Cell.{
  CellId, CellState, cell_state_eq, cell_phase_eq, CellRecord, ProviderObjectIdentity,
}
use vm_cell_manager.Provider.{ProviderVm, by_id, by_name}
use vm_cell_manager.Engine.Errors.{EngineError}
use vm_cell_manager.Program.{catch, inspect_vm, runtime_entry_exists, load_installation}
use vm_cell_manager.Program.Logic.{
  History, finished, weaken-Holds, catch-Holds, Caught, perform-Holds,
}
use vm_cell_manager.Lifecycle.{validate_local_ownership}
use vm_cell_manager.Lifecycle.Known.{Known, known, IsStored}
use vm_cell_manager.Lifecycle.Permits.{Permits, Ends, Conforms}
use vm_cell_manager.Lifecycle.Permits.Steps.{step, either, bind, weaken, finishes}
use vm_cell_manager.Lifecycle.Reconcile.Meaning.{Means, compare_found_lem}
use vm_cell_manager.Lifecycle.Reconcile.{
  ReconciliationClassification, classification, Reconciled, reconcile_runtime, reconcile_name,
  reconcile_absent, reconcile_unrecorded, reconcile_found, reconcile_free, reconcile_tombstone,
  reconcile_live, reconcile_local, reconcile_record,
}

module _ (host : Host) (name root : String) where
  -- The lock and the stored record stay known.
  unfoldable pub Tracked : CellRecord → Known → Known → Reconciled → Type 0
  Tracked r k0 k found =
      (k.locked ≡ k0.locked) × (k.durable ≡ k0.durable) × Means host name root r k found

  module _ (file_stem : Uuid → Option String) where
    free_lem :
        (r : CellRecord) (h : History)
        → r.state ≡ CellState.destroyed
        → Conforms host name root (Tracked r (known h)) h (reconcile_free host r)
    unfolding reconcile_free Permits Tracked Means
    free_lem r h d = step (inspect_vm (by_name r.ownership.provider_object_name)) _ tt (named r h d)
      where
        entry :
            (r : CellRecord) (h : History) (exists : Bool)
            → r.state ≡ CellState.destroyed
            → (known h).vacant ≡ some r.ownership.provider_object_name
            → Conforms host name root (Tracked r (known h)) h (reconcile_runtime host exists)
        entry r h true d v = finishes _ (refl, refl, inr (d, v, refl))
        entry r h false d v = finishes _ (refl, refl, (d, v))

        named :
            (r : CellRecord) (h : History)
            → r.state ≡ CellState.destroyed
            → (found : Option ProviderVm)
            → Conforms host name root
                (Tracked r (known h))
                (record {
                  op = inspect_vm (by_name r.ownership.provider_object_name);
                  reply = ok found;
                }
                  ∷ h)
                (reconcile_name host r found)
        named r h d (some vm) = finishes _ (refl, refl, inl d)
        named r h d none =
            step (runtime_entry_exists r.id) _ tt
              (λ exists. weaken _ (λ k found t. t) (entry r _ exists d refl))

    tombstone_lem :
        (r : CellRecord) (i : Option ProviderObjectIdentity) (h : History)
        → r.state ≡ CellState.destroyed
        → Conforms host name root (Tracked r (known h)) h (reconcile_tombstone host r i)
    unfolding reconcile_tombstone Permits Tracked Means
    tombstone_lem r none h d = free_lem r h d
    tombstone_lem r (some identity) h d =
        step (inspect_vm (by_id identity.id)) _ tt (absent r h identity.id d)
      where
        absent :
            (r : CellRecord) (h : History) (id : String)
            → r.state ≡ CellState.destroyed
            → (found : Option ProviderVm)
            → Conforms host name root
                (Tracked r (known h))
                (record { op = inspect_vm (by_id id); reply = ok found } ∷ h)
                (reconcile_absent host r found)
        absent r h id d (some vm) = finishes _ (refl, refl, inl d)
        absent r h id d none = weaken _ (λ k found t. t) (free_lem r _ d)

    live_lem :
        (r : CellRecord) (i : Option ProviderObjectIdentity) (h : History)
        → r.provider_object ≡ i
        → Conforms host name root (Tracked r (known h)) h (reconcile_live host r i)
    unfolding reconcile_live Permits Tracked Means
    live_lem r none h e =
        step (inspect_vm (by_name r.ownership.provider_object_name)) _ tt (unrecorded r h e)
      where
        unrecorded :
            (r : CellRecord) (h : History)
            → r.provider_object ≡ none
            → (found : Option ProviderVm)
            → Conforms host name root
                (Tracked r (known h))
                (record {
                  op = inspect_vm (by_name r.ownership.provider_object_name);
                  reply = ok found;
                }
                  ∷ h)
                (reconcile_unrecorded host found)
        unrecorded r h e (some vm) = finishes _ (refl, refl, (e, refl, refl))
        unrecorded r h e none = finishes _ (refl, refl, (e, refl))
    live_lem r (some identity) h e =
        step (inspect_vm (by_id identity.id)) _ tt (compared r h identity e)
      where
        compared :
            (r : CellRecord) (h : History) (i : ProviderObjectIdentity)
            → r.provider_object ≡ some i
            → (found : Option ProviderVm)
            → Conforms host name root
                (Tracked r (known h))
                (record { op = inspect_vm (by_id i.id); reply = ok found } ∷ h)
                (reconcile_found host r found)
        compared r h i e none = finishes _ (refl, refl, (i, e, refl))
        compared r h i e (some vm) = finishes _ (
          refl,
          refl,
          compare_found_lem host name root r vm
              (known (record { op = inspect_vm (by_id i.id); reply = ok (some vm) } ∷ h)) refl,
        )

    local_lem :
        (r : CellRecord) (checked : Result EngineError (Unit {0})) (h : History)
        → Conforms host name root (Tracked r (known h)) h (reconcile_local host r checked)
    unfolding Tracked Means
    local_lem r (err e) h = finishes _ (refl, refl, inl (e, refl))
    local_lem r (ok _) h =
        either (r.state == CellState.destroyed)
          (λ d. tombstone_lem r r.provider_object h (eq_of_test _ _ d))
          (λ _. live_lem r r.provider_object h refl)

    caught_local :
        (r : CellRecord) (h : History)
        → Conforms host name root
            (λ k _. k ≡ known h)
            h
            (catch (validate_local_ownership host file_stem name root r))
    unfolding validate_local_ownership Permits
    caught_local r h = record {
      paths = weaken-Holds outcome _ (
          catch-Holds {Q = λ h' _. known h' ≡ known h} _
            (perform-Holds load_installation _ tt (λ install. finished _ refl) (λ e. refl)));
    }
      where
        outcome :
            (h' : History) (r : Result EngineError (Result EngineError (Unit {0})))
            → Caught (λ g _. known g ≡ known h) h' r
            → Ends (λ k _. k ≡ known h) h' r
        outcome h' (ok _) e = e
        outcome h' (err _) e = tt

    pub reconcile_record_lem :
        (r : CellRecord) (h : History)
        → Conforms host name root
            (Tracked r (known h))
            h
            (reconcile_record host file_stem name root r)
    unfolding reconcile_record Tracked
    reconcile_record_lem r h =
        bind (catch (validate_local_ownership host file_stem name root r)) _ (caught_local r h)
          (λ checked h' e. rw (← e) (local_lem r checked h'))

    -- What an inspection that succeeds tells.
    pub record Inspected (id : CellId) (k : Known)
        (found : CellRecord × Reconciled × ReconciliationClassification) : Type 0 where
      pub stored : IsStored k found.0
      pub same : found.0.id ≡ id
      pub means : Means host name root found.0 k found.1
      pub class : found.2 ≡ classification found.1.1
