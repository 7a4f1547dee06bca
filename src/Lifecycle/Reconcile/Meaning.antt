-- ===== src/Lifecycle/Reconcile/Meaning.antt =====
-- What the status of a reconciliation (src/engine/mod.rs) tells about the cell.
use vm_cell_manager.Prelude.{
  ◌≡◌, ◌⊎◌, inr, refl, true, false, not, ◌&&◌, ◌||◌, ◌==◌, String, none, some, List, [], ◌∷◌,
  is_empty, is_ok, Bool, if◌then◌else◌, Result, ok, err, and_true, of_not, string_eq,
}
use vm_cell_manager.Host.{Host}
use vm_cell_manager.Cell.{
  CellState, cell_state_eq, provider_object_claimed, destroying_provisioning, cell_phase_eq,
  CellRecord, ProviderObjectIdentity,
}
use vm_cell_manager.Provider.{ProviderVm}
use vm_cell_manager.Engine.Errors.{EngineError}
use vm_cell_manager.Engine.Identity.{
  Reason, local_ownership, runtime_after_tombstone, prove_ownership, prove_creation_identity,
  prove_destroy_identity, ownership_drift, proven_if_none,
}
use vm_cell_manager.Engine.Proven.{
  SameMachine, IsIsolated, prove_ownership_iff, prove_creation_identity-IsFresh,
  prove_destroy_identity_iff,
}
use vm_cell_manager.Lifecycle.Known.{Known}
use vm_cell_manager.Lifecycle.Reconcile.{
  ReconciliationStatus, exact_owned, provider_missing, manifest_only, state_drift, provisioning,
  ownership_mismatch, unproven_provider_object, Reconciled, is_created_or_claimed,
  power_state_matches, compare_found,
}

module _ (host : Host) (name root : String) where
  -- The last snapshot, if a status comes with one, and what it proves.
  unfoldable pub Means : CellRecord → Known → Reconciled → Type 0
  Means r k (some vm, exact_owned) =
      (k.seen ≡ some vm)
      × IsIsolated host r vm
      × (power_state_matches r.state vm.power_state ≡ true)
  Means r k (some vm, state_drift _ _) =
      (k.seen ≡ some vm)
      × IsIsolated host r vm
      × (power_state_matches r.state vm.power_state ≡ false)
  Means r k (some vm, provisioning _) = (k.seen ≡ some vm) × SameMachine host r vm
  Means r k (none, ReconciliationStatus.destroyed) =
      (r.state ≡ CellState.destroyed) × (k.vacant ≡ some r.ownership.provider_object_name)
  Means r k (none, provider_missing) =
      (i : ProviderObjectIdentity) × (r.provider_object ≡ some i) × (k.missing ≡ some i.id)
  Means r k (none, manifest_only) =
      (r.provider_object ≡ none) × (k.vacant ≡ some r.ownership.provider_object_name)
  Means r k (some vm, ReconciliationStatus.destroyed) = ⊥
  Means r k (some vm, provider_missing) = ⊥
  Means r k (some vm, manifest_only) = ⊥
  Means r k (none, exact_owned) = ⊥
  Means r k (none, state_drift _ _) = ⊥
  Means r k (none, provisioning _) = ⊥
  Means r k (some vm, ownership_mismatch _) =
      (r.state ≡ CellState.destroyed) ⊎ ((k.seen ≡ some vm) × (¬ IsIsolated host r vm))
  Means r k (none, ownership_mismatch reasons) =
      ((e : EngineError) × (reasons ≡ local_ownership e ∷ []))
      ⊎ ((r.state ≡ CellState.destroyed)
          × (k.vacant ≡ some r.ownership.provider_object_name)
          × (reasons ≡ runtime_after_tombstone ∷ []))
  Means r k (some vm, unproven_provider_object id) =
      (r.provider_object ≡ none) × (k.vacant ≡ none) × (id ≡ vm.id)
  Means r k (none, unproven_provider_object _) = ⊥

  choose :
      {A : Type 0} (P : A → Type 0) (b : Bool) {x y : A}
      → (b ≡ true → P x)
      → (b ≡ false → P y)
      → P (if b then x else y)
  choose P true v w = v refl
  choose P false v w = w refl

  is_ok-eq : {E : Type 0} (r : Result E (Unit {0})) → is_ok r ≡ true → r ≡ ok tt
  is_ok-eq (ok tt) h = refl
  is_ok-eq (err e) h = cc

  no_drift :
      (reasons : List Reason) → not (is_empty reasons) ≡ false → proven_if_none host reasons ≡ ok tt
  no_drift [] h = refl
  no_drift (_ ∷ _) h = cc

  false_of : (b : Bool) → not b ≡ true → b ≡ false
  false_of true h = cc
  false_of false h = refl

  isolated_lem :
      (r : CellRecord) (vm : ProviderVm)
      → not (is_empty (ownership_drift host r vm)) ≡ false
      → IsIsolated host r vm
  unfolding prove_ownership
  isolated_lem r vm h = (prove_ownership_iff host r vm).0 (no_drift (ownership_drift host r vm) h)

  drifts :
      (reasons : List Reason)
      → not (is_empty reasons) ≡ true
      → ¬ (proven_if_none host reasons ≡ ok tt)
  drifts [] h e = cc
  drifts (_ ∷ _) h e = cc

  not_isolated_lem :
      (r : CellRecord) (vm : ProviderVm)
      → not (is_empty (ownership_drift host r vm)) ≡ true
      → ¬ IsIsolated host r vm
  unfolding prove_ownership
  not_isolated_lem r vm h o =
      drifts (ownership_drift host r vm) h ((prove_ownership_iff host r vm).1 o)

  pub compare_found_lem :
      (r : CellRecord) (vm : ProviderVm) (k : Known)
      → k.seen ≡ some vm
      → Means r k (compare_found host r vm)
  unfolding compare_found Means
  compare_found_lem r vm k seen =
      choose (Means r k)
        (is_created_or_claimed r.phase
          && is_ok (
              prove_creation_identity host r vm (
                r.phase == provider_object_claimed
                || vm.ownership_marker == r.ownership.provider_marker)))
        (λ e. (
          seen,
          (prove_creation_identity-IsFresh host r vm _ (is_ok-eq _ (and_true _ _ e).1)).machine,
        ))
        (λ _.
          choose (Means r k)
            (r.phase == destroying_provisioning && is_ok (prove_destroy_identity host r vm))
            (λ e. (
              seen,
              ((prove_destroy_identity_iff host r vm).0 (is_ok-eq _ (and_true _ _ e).1)).machine,
            ))
            (λ _.
              choose (Means r k) (not (is_empty (ownership_drift host r vm)))
                (λ d. inr (seen, not_isolated_lem r vm d))
                (λ d.
                  choose (Means r k) (not (power_state_matches r.state vm.power_state))
                    (λ e. (seen, isolated_lem r vm d, false_of _ e))
                    (λ e. (seen, isolated_lem r vm d, of_not _ e)))))
