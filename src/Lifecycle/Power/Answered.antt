-- ===== src/Lifecycle/Power/Answered.antt =====
-- The parts of a start and a stop of a cell (src/engine/mod.rs) on a platform where nothing fails.
use vm_cell_manager.Prelude.{
  ◌≡◌, ◌∙◌, ap, sym, true, false, ◌==◌, ◌!=◌, string_eq, ℕ, String, Option, Bool, ok_or,
  if◌then◌else◌, ok, reject_if, reject_if-passes, not_of_eq,
}
use vm_cell_manager.Host.{Uuid, Host}
use vm_cell_manager.Cell.{CellState, cell_state_eq, ready, CellRecord, ProviderObjectIdentity}
use vm_cell_manager.Provider.{ProviderVm, ProviderPowerState, power_state_eq, by_id}
use vm_cell_manager.Engine.Errors.{ownership_not_proven, unexpected_power_state}
use vm_cell_manager.Engine.Identity.{prove_ownership, validate_local_ownership_record}
use vm_cell_manager.Engine.Proven.{IsIsolated, prove_ownership_iff}
use vm_cell_manager.Program.{
  ◌>>=◌, perform, pure, load_installation, verify_registered_image, now, inspect_vm,
}
use vm_cell_manager.Program.Logic.{Platform}
use vm_cell_manager.Program.Yields.{
  Yields, perform-Yields, lift-Yields, end-Yields, last-Yields, pure-Yields, bind-Yields,
}
use vm_cell_manager.Store.{redact_cell_diagnostic, validate_cell_schema}
use vm_cell_manager.Store.Files.{save_cell}
use vm_cell_manager.Lifecycle.{
  operation_report, fail_if, bound_variant, moved, validate_local_ownership, exact_owned_vm,
  settle_record,
}
use vm_cell_manager.Lifecycle.Single.{IsSingle, save_cell-Yields}
use vm_cell_manager.Lifecycle.Power.{verify_parent}

module _ {S : Type 0} {handle : Platform S} {install : Uuid} {clock : ℕ} {stored : S → CellRecord}
    {machine : S → ProviderVm} {put : CellRecord → S → S} {power : ProviderPowerState → S → S}
    (host : Host) (file_stem : Uuid → Option String) (name root : String)
    (w : IsSingle handle file_stem install clock stored machine put power) where
  pub owned_Yields :
      (r : CellRecord) (s : S)
      → (r.state == CellState.destroyed) ≡ false
      → validate_local_ownership_record host name root r install ≡ ok tt
      → prove_ownership host r (machine s) ≡ ok tt
      → Yields handle (exact_owned_vm host file_stem name root r) s (machine s) s
  unfolding exact_owned_vm validate_local_ownership
  owned_Yields r s live local proven =
      let i : ProviderObjectIdentity = record { id = (machine s).id; name = (machine s).name } in
      let e = ((prove_ownership_iff host r (machine s)).0 proven).owned.machine.identity in
      lift-Yields (reject_if (r.state == CellState.destroyed) ownership_not_proven) _
        (reject_if-passes _ _ live)
        (bind-Yields (validate_local_ownership host file_stem name root r) _
          (perform-Yields load_installation _ (w.installation s)
            (end-Yields (validate_local_ownership_record host name root r install) local))
          (lift-Yields (ok_or ownership_not_proven r.provider_object) _ {a = i}
            (ap (ok_or ownership_not_proven) e)
            (perform-Yields (inspect_vm (by_id (machine s).id)) _ (w.inspect s) (
              lift-Yields (prove_ownership host r (machine s)) _ proven
                (pure-Yields (machine s))))))

  pub verify_Yields : (r : CellRecord) (s : S) → Yields handle (verify_parent r) s tt s
  unfolding verify_parent
  verify_Yields r s = chosen (r.provider == "qemu")
    where
      chosen :
          (b : Bool)
          → Yields handle
              (if b then perform (verify_registered_image (bound_variant r)) else pure tt)
              s
              tt
              s
      chosen true = last-Yields (verify_registered_image (bound_variant r)) (w.verify _ s)
      chosen false = pure-Yields tt

  settle_Yields :
      (r : CellRecord) (p : CellState) (changed : Bool) (s : S)
      → r ≡ redact_cell_diagnostic (stored s)
      → validate_cell_schema host (file_stem (stored s).id) (stored s) ≡ ok tt
      → Yields handle
          (settle_record host file_stem name root r p changed)
          s
          (record { cell_id = r.id; state = p; changed = changed })
          (put (redact_cell_diagnostic (moved r p ready clock)) s)
  unfolding settle_record operation_report redact_cell_diagnostic validate_cell_schema
  settle_Yields r p changed s e schema = perform-Yields now _ (w.time s) (
      bind-Yields (save_cell host file_stem (moved r p ready clock)) _
        (save_cell-Yields host file_stem w (moved r p ready clock) s (ap (λ x. x.id) e)
          (ap (λ x. x.job) e) schema (rw e schema))
        (pure-Yields (operation_report (moved r p ready clock) changed)))

  powered-IsIsolated :
      (r : CellRecord) (p : ProviderPowerState) (vm : ProviderVm)
      → IsIsolated host r vm
      → IsIsolated host r (record vm { power_state = p })
  powered-IsIsolated r p vm o = record {
    owned = record {
      machine = record {
        identity = o.owned.machine.identity;
        object_name = o.owned.machine.object_name;
        configuration = o.owned.machine.configuration;
        disk = o.owned.machine.disk;
        memory = o.owned.machine.memory;
      };
      marker = o.owned.marker;
    };
    no_network = o.no_network;
    cpu = o.cpu;
  }

  -- The proof of ownership does not read the power state.
  still_proven :
      (r : CellRecord) (p : ProviderPowerState) (s : S)
      → prove_ownership host r (machine s) ≡ ok tt
      → prove_ownership host r (machine (power p s)) ≡ ok tt
  still_proven r p s proven = rw (w.power_machine p s) (
      (prove_ownership_iff host r (record (machine s) { power_state = p })).1
        (powered-IsIsolated r p (machine s) ((prove_ownership_iff host r (machine s)).0 proven)))

  -- The second snapshot and the end.
  pub confirm_Yields :
      (r : CellRecord) (p : ProviderPowerState) (to : CellState) (s : S)
      → r ≡ redact_cell_diagnostic (stored s)
      → (r.state == CellState.destroyed) ≡ false
      → validate_cell_schema host (file_stem (stored s).id) (stored s) ≡ ok tt
      → validate_local_ownership_record host name root r install ≡ ok tt
      → prove_ownership host r (machine s) ≡ ok tt
      → Yields handle
          (exact_owned_vm host file_stem name root r >>= λ after.
            fail_if (after.power_state != p) (unexpected_power_state after.power_state) >>= λ _.
            settle_record host file_stem name root r to true)
          (power p s)
          (record { cell_id = r.id; state = to; changed = true })
          (put (redact_cell_diagnostic (moved r to ready clock)) (power p s))
  confirm_Yields r p to s e live schema local proven =
      bind-Yields (exact_owned_vm host file_stem name root r) _
        (owned_Yields r (power p s) live local (still_proven r p s proven))
        (lift-Yields
          (reject_if ((machine (power p s)).power_state != p)
            (unexpected_power_state (machine (power p s)).power_state))
          _ (reject_if-passes _ _ (not_of_eq (ap (λ vm. vm.power_state) (w.power_machine p s))))
          (settle_Yields r to true (power p s)
            (e ∙ sym (ap redact_cell_diagnostic (w.power_stored p s)))
            (rw (w.power_stored p s) schema)))
