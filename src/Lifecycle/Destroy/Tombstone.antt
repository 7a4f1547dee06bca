-- ===== src/Lifecycle/Destroy/Tombstone.antt =====
-- The end of a destruction (src/engine/mod.rs): the removal of the virtual machine and of the files,
-- and the tombstone.
use vm_cell_manager.Prelude.{
  ◌≡◌, ◌∙◌, ap, refl, true, false, ◌⊎◌, inl, inr, String, Option, none, some, ◌∷◌, Bool, is_some,
  ok,
}
use vm_cell_manager.Host.{Uuid, Host}
use vm_cell_manager.Cell.{CellId, CellState, destroying, cell_state_eq, CellPhase, CellRecord}
use vm_cell_manager.Provider.{ProviderVm, power_state_eq, by_id, by_name, new_authority}
use vm_cell_manager.Engine.Errors.{ownership_not_proven, provider_drift}
use vm_cell_manager.Engine.Identity.{prove_destroy_identity, validate_local_ownership_record}
use vm_cell_manager.Engine.Proven.{prove_destroy_identity_iff}
use vm_cell_manager.Program.{
  ◌>>=◌, lift, perform, inspect_vm, remove_vm, pin_cell_runtime, remove_cell_runtime, now,
}
use vm_cell_manager.Program.Logic.{History}
use vm_cell_manager.Store.{redact_cell_diagnostic}
use vm_cell_manager.Lifecycle.{OperationReport, operation_report, fail_if, moved}
use vm_cell_manager.Lifecycle.Known.{Known, known, IsStored}
use vm_cell_manager.Lifecycle.Permits.{Permits, MayWrite, Conforms}
use vm_cell_manager.Lifecycle.Permits.Steps.{
  step, check, check_not, check_local, save, bind, finishes, fails,
}
use vm_cell_manager.Lifecycle.Reconcile.{ReconciliationStatus, Reconciled, reconcile_record}
use vm_cell_manager.Lifecycle.Reconcile.Meaning.{Means}
use vm_cell_manager.Lifecycle.Reconcile.Inspected.{Tracked, reconcile_record_lem}
use vm_cell_manager.Lifecycle.Destroy.Entered.{Entered, Pinned, holds_all}
use vm_cell_manager.Lifecycle.Destroy.Held.{Down}
use vm_cell_manager.Lifecycle.Destroy.{
  tombstone_report, destroy_tombstone, commit_destroyed, remove_object, remove_runtime,
}

-- A report of success: a tombstone is stored, and the provider has reported the cell's name free.
pub record Destroyed (id : CellId) (k : Known) (report : OperationReport) : Type 0 where
  pub r : CellRecord
  pub stored : IsStored k r
  pub same : r.id ≡ id
  pub state : r.state ≡ CellState.destroyed
  pub vacant : k.vacant ≡ some r.ownership.provider_object_name
  pub phase : (r.phase ≡ CellPhase.destroyed) ⊎ (report.changed ≡ false)
  pub cell : report.cell_id ≡ id
  pub reported : report.state ≡ CellState.destroyed

module _ (host : Host) (file_stem : Uuid → Option String) (name root : String) where
  commit_destroyed_lem :
      (install : Uuid) (r : CellRecord) (id : CellId) (h : History)
      → r.id ≡ id
      → (known h).locked ≡ true
      → (known h).vacant ≡ some r.ownership.provider_object_name
      → Conforms host name root
          (Destroyed id)
          h
          (commit_destroyed host file_stem name root install r)
  unfolding commit_destroyed Permits MayWrite IsStored redact_cell_diagnostic operation_report
  commit_destroyed_lem install r id h same lock vacant = check_local r install _ (λ l.
      step now _ tt (λ t.
        let r' = moved r CellState.destroyed CellPhase.destroyed t in
        save host file_stem name root r' _ (lock, vacant)
          (λ h' e. finishes _ (record {
            r = r';
            stored = (redact_cell_diagnostic r', ap (λ k. k.durable) e, refl);
            same = same;
            state = refl;
            vacant = ap (λ k. k.vacant) e ∙ vacant;
            phase = inl refl;
            cell = same;
            reported = refl;
          }))))

  -- The removal of the files of a cell, and the tombstone.
  delete_lem :
      (install : Uuid) (r : CellRecord) (id : CellId) (h : History)
      → r.id ≡ id
      → Entered (known h) install r
      → Pinned (known h) r
      → (known h).vacant ≡ some r.ownership.provider_object_name
      → Conforms host name root (Destroyed id) h (
          lift (validate_local_ownership_record host name root r install) >>= λ _.
          perform (remove_cell_runtime r.id) >>= λ _.
          commit_destroyed host file_stem name root install r)
  unfolding Permits
  delete_lem install r id h same w p vacant = check_local r install _ (λ l.
      step (remove_cell_runtime r.id) _
        (record {
          r = r;
          holding = holds_all host file_stem name root w l p;
          same = refl;
          vacant = vacant;
        })
        (λ _. commit_destroyed_lem install r id _ same w.lock vacant))

  -- The lookup by name, once the virtual machine is gone.
  named_lem :
      (install : Uuid) (r : CellRecord) (id : CellId) (h : History)
      → r.id ≡ id
      → Entered (known h) install r
      → Pinned (known h) r
      → (named : Option ProviderVm)
      → Conforms host name root
          (Destroyed id)
          (record { op = inspect_vm (by_name r.ownership.provider_object_name); reply = ok named }
            ∷ h)
          (fail_if (is_some named) ownership_not_proven >>= λ _.
            lift (validate_local_ownership_record host name root r install) >>= λ _.
            perform (remove_cell_runtime r.id) >>= λ _.
            commit_destroyed host file_stem name root install r)
  unfolding IsStored
  named_lem install r id h same w p (some _) = fails ownership_not_proven
  named_lem install r id h same w p none =
      delete_lem install r id _ same
        (record { lock = w.lock; installation = w.installation; stored = w.stored }) p refl

  pub remove_object_lem :
      (install : Uuid) (r : CellRecord) (vm : ProviderVm) (id : CellId) (h : History)
      → r.id ≡ id
      → r.state ≡ destroying
      → Down host file_stem name root install r (known h) vm
      → Conforms host name root
          (Destroyed id)
          h
          (remove_object host file_stem name root install r vm)
  unfolding remove_object Permits Down IsStored
  remove_object_lem install r vm id h same intent (w, p, seen, is_off) =
      check_local r install _ (λ l. check (prove_destroy_identity host r vm) _ (λ _ e.
        step (remove_vm (new_authority r) vm) _
          (record {
            r = r;
            holding = holds_all host file_stem name root w l p;
            authority = refl;
            proven = (prove_destroy_identity_iff host r vm).0 e;
            current = seen;
            intent = intent;
            is_off = is_off;
          })
          (λ _. step (inspect_vm (by_id vm.id)) _ tt (λ still.
            check_not (is_some still) provider_drift _ (λ _.
              step (inspect_vm (by_name r.ownership.provider_object_name)) _ tt (
                named_lem install r id
                  (record { op = inspect_vm (by_id vm.id); reply = ok still }
                    ∷ record { op = remove_vm (new_authority r) vm; reply = ok tt }
                    ∷ h)
                  same (unseen still) (unpinned still)))))))
    where
      after : Option ProviderVm → History
      after still =
          record { op = inspect_vm (by_id vm.id); reply = ok still }
          ∷ record { op = remove_vm (new_authority r) vm; reply = ok tt }
          ∷ h

      unseen : (still : Option ProviderVm) → Entered (known (after still)) install r
      unseen none = record { lock = w.lock; installation = w.installation; stored = w.stored }
      unseen (some _) = record { lock = w.lock; installation = w.installation; stored = w.stored }

      unpinned : (still : Option ProviderVm) → Pinned (known (after still)) r
      unpinned none = p
      unpinned (some _) = p

  pub runtime_lem :
      (install : Uuid) (r : CellRecord) (id : CellId) (exists : Bool) (h : History)
      → r.id ≡ id
      → Entered (known h) install r
      → (known h).vacant ≡ some r.ownership.provider_object_name
      → Conforms host name root
          (Destroyed id)
          h
          (remove_runtime host file_stem name root install r exists)
  unfolding remove_runtime Permits IsStored
  runtime_lem install r id false h same w vacant =
      commit_destroyed_lem install r id h same w.lock vacant
  runtime_lem install r id true h same w vacant =
      step (pin_cell_runtime r.id r.ownership.configuration_path r.ownership.overlay_path) _ tt
        (λ _.
          delete_lem install r id _ same
            (record { lock = w.lock; installation = w.installation; stored = w.stored }) refl
            vacant)

  -- A tombstone is confirmed only where it reconciles as one.
  tombstone_report_lem :
      (r : CellRecord) (id : CellId) (k0 : Known) (h : History) (found : Reconciled)
      → r.id ≡ id
      → IsStored k0 r
      → Tracked host name root r k0 (known h) found
      → Conforms host name root (Destroyed id) h (tombstone_report r found.1)
  unfolding tombstone_report Tracked Means IsStored operation_report
  tombstone_report_lem r id k0 h (none, ReconciliationStatus.destroyed) same stored (_, d, (s, v)) =
      finishes _ (record {
        r = r;
        stored = (stored.0, d ∙ stored.1, stored.2);
        same = same;
        state = s;
        vacant = v;
        phase = inr refl;
        cell = same;
        reported = s;
      })
  tombstone_report_lem r id k0 h (some vm, ReconciliationStatus.destroyed) same stored
        (_, _, none_) =
      absurd none_
  tombstone_report_lem r id k0 h (_, ReconciliationStatus.exact_owned) same stored t =
      fails provider_drift
  tombstone_report_lem r id k0 h (_, ReconciliationStatus.manifest_only) same stored t =
      fails provider_drift
  tombstone_report_lem r id k0 h (_, ReconciliationStatus.provider_missing) same stored t =
      fails provider_drift
  tombstone_report_lem r id k0 h (_, ReconciliationStatus.unproven_provider_object _) same stored
        t =
      fails provider_drift
  tombstone_report_lem r id k0 h (_, ReconciliationStatus.ownership_mismatch _) same stored t =
      fails provider_drift
  tombstone_report_lem r id k0 h (_, ReconciliationStatus.state_drift _ _) same stored t =
      fails provider_drift
  tombstone_report_lem r id k0 h (_, ReconciliationStatus.provisioning _) same stored t =
      fails provider_drift

  pub destroy_tombstone_lem :
      (r : CellRecord) (id : CellId) (h : History)
      → r.id ≡ id
      → IsStored (known h) r
      → Conforms host name root (Destroyed id) h (destroy_tombstone host file_stem name root r)
  unfolding destroy_tombstone
  destroy_tombstone_lem r id h same stored =
      bind (reconcile_record host file_stem name root r) _
        (reconcile_record_lem host name root file_stem r h)
        (λ found h' t. tombstone_report_lem r id (known h) h' found same stored t)
