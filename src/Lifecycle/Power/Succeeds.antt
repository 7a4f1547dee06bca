-- ===== src/Lifecycle/Power/Succeeds.antt =====
-- The start and the stop of a cell (src/engine/mod.rs) where nothing fails.
use vm_cell_manager.Prelude.{
  ◌≡◌, refl, true, false, not, ◌==◌, string_eq, ℕ, String, Option, [], ◌∷◌, Bool, if◌then◌else◌, ok,
}
use vm_cell_manager.Host.{Uuid, Host}
use vm_cell_manager.Cell.{
  CellState, stopped, running, cell_state_eq, CellState-discrete, ready, CellRecord,
}
use vm_cell_manager.Provider.{ProviderVm, ProviderPowerState, off, power_state_eq, new_authority}
use vm_cell_manager.Engine.Errors.{unexpected_power_state}
use vm_cell_manager.Engine.Identity.{prove_ownership, validate_local_ownership_record}
use vm_cell_manager.Program.{
  fail, acquire_mutation_lock, acquire_installation_authority, pin_cell_runtime, start_vm, stop_vm,
}
use vm_cell_manager.Program.Logic.{Platform}
use vm_cell_manager.Program.Yields.{Yields, perform-Yields, lift-Yields, bind-Yields}
use vm_cell_manager.Store.{redact_cell_diagnostic, validate_cell_schema}
use vm_cell_manager.Store.Files.{load_cell}
use vm_cell_manager.Lifecycle.{
  OperationReport, require_lifecycle_state, require_provider, moved, exact_owned_vm,
}
use vm_cell_manager.Lifecycle.Single.{IsSingle, load_cell-Yields}
use vm_cell_manager.Lifecycle.Power.{
  verify_parent, power_on, start_from, start_cell, power_off, stop_from, stop_cell,
}
use vm_cell_manager.Lifecycle.Power.Answered.{owned_Yields, verify_Yields, confirm_Yields}

module _ {S : Type 0} {handle : Platform S} {install : Uuid} {clock : ℕ} {stored : S → CellRecord}
    {machine : S → ProviderVm} {put : CellRecord → S → S} {power : ProviderPowerState → S → S}
    (host : Host) (file_stem : Uuid → Option String) (name root : String)
    (w : IsSingle handle file_stem install clock stored machine put power) where
  -- A cell at rest that is this installation's own.
  pub record AtRest (s : S) (state : CellState) : Type 0 where
    pub supported : require_provider name ≡ ok tt
    pub state_is : (stored s).state ≡ state
    pub schema : validate_cell_schema host (file_stem (stored s).id) (stored s) ≡ ok tt
    pub local :
        validate_local_ownership_record host name root (redact_cell_diagnostic (stored s)) install
        ≡ ok tt
    pub proven : prove_ownership host (redact_cell_diagnostic (stored s)) (machine s) ≡ ok tt

  -- The branch that powers the virtual machine on.
  from_off :
      {a : OperationReport} {s s1 : S} (r : CellRecord) (vm : ProviderVm) (p : ProviderPowerState)
      → p ≡ off
      → (r.state == CellState.destroyed) ≡ false
      → Yields handle (power_on host file_stem name root r vm) s a s1
      → Yields handle (start_from host file_stem name root p r vm) s a s1
  unfolding start_from
  from_off {a = a} {s = s} {s1 = s1} r vm p e live y =
      rw e (taken (r.state == CellState.destroyed) live)
    where
      taken :
          (b : Bool)
          → b ≡ false
          → Yields handle
              (if not b
                then power_on host file_stem name root r vm
                else fail (unexpected_power_state off))
              s
              a
              s1
      taken false q = y
      taken true q = cc

  from_running :
      {a : OperationReport} {s s1 : S} (r : CellRecord) (vm : ProviderVm) (p : ProviderPowerState)
      → p ≡ ProviderPowerState.running
      → Yields handle (power_off host file_stem name root r vm) s a s1
      → Yields handle (stop_from host file_stem name root p r vm) s a s1
  unfolding stop_from
  from_running r vm p e y = rw e y

  power_on-Yields :
      (s : S) (r : CellRecord)
      → r ≡ redact_cell_diagnostic (stored s)
      → (r.state == CellState.destroyed) ≡ false
      → validate_cell_schema host (file_stem (stored s).id) (stored s) ≡ ok tt
      → validate_local_ownership_record host name root r install ≡ ok tt
      → prove_ownership host r (machine s) ≡ ok tt
      → Yields handle
          (power_on host file_stem name root r (machine s))
          s
          (record { cell_id = r.id; state = running; changed = true })
          (put
            (redact_cell_diagnostic (moved r running ready clock))
            (power ProviderPowerState.running s))
  unfolding power_on
  power_on-Yields s r e live schema local proven =
      bind-Yields (verify_parent r) _ (verify_Yields host file_stem name root w r s) (
        perform-Yields acquire_installation_authority _ (w.authority s) (
          lift-Yields (validate_local_ownership_record host name root r install) _ local (
            perform-Yields
              (pin_cell_runtime r.id r.ownership.configuration_path r.ownership.overlay_path) _
              (w.pin _ _ _ s)
              (perform-Yields (start_vm (new_authority r) (machine s)) _ (w.start _ _ s) (
                confirm_Yields host file_stem name root w r ProviderPowerState.running running s e
                  live schema local proven)))))

  power_off-Yields :
      (s : S) (r : CellRecord)
      → r ≡ redact_cell_diagnostic (stored s)
      → (r.state == CellState.destroyed) ≡ false
      → validate_cell_schema host (file_stem (stored s).id) (stored s) ≡ ok tt
      → validate_local_ownership_record host name root r install ≡ ok tt
      → prove_ownership host r (machine s) ≡ ok tt
      → Yields handle
          (power_off host file_stem name root r (machine s))
          s
          (record { cell_id = r.id; state = stopped; changed = true })
          (put (redact_cell_diagnostic (moved r stopped ready clock)) (power off s))
  unfolding power_off
  power_off-Yields s r e live schema local proven =
      perform-Yields acquire_installation_authority _ (w.authority s) (
        lift-Yields (validate_local_ownership_record host name root r install) _ local (
          perform-Yields
            (pin_cell_runtime r.id r.ownership.configuration_path r.ownership.overlay_path) _
            (w.pin _ _ _ s)
            (perform-Yields (stop_vm (new_authority r) (machine s)) _ (w.stop _ _ s) (
              confirm_Yields host file_stem name root w r off stopped s e live schema local
                proven))))

  -- On a platform with one stored cell and one virtual machine on which nothing fails: if the
  -- cell is stopped, schema-valid and of this installation and its own virtual machine is
  -- isolated and off, `start_cell` reports the cell running and changed, and leaves the virtual
  -- machine running and the redacted record saved as running and ready.
  pub start_cell-Yields :
      (s : S)
      → AtRest s stopped
      → (machine s).power_state ≡ off
      → Yields handle
          (start_cell host file_stem name root (stored s).id)
          s
          (record { cell_id = (stored s).id; state = running; changed = true })
          (put
            (redact_cell_diagnostic (moved (redact_cell_diagnostic (stored s)) running ready clock))
            (power ProviderPowerState.running s))
  unfolding start_cell require_lifecycle_state redact_cell_diagnostic CellState-discrete
  start_cell-Yields s a is_off =
      let r = redact_cell_diagnostic (stored s) in
      lift-Yields (require_provider name) _ a.supported (
        perform-Yields acquire_mutation_lock _ (w.lock s) (
          bind-Yields (load_cell host file_stem (stored s).id) _
            (load_cell-Yields host file_stem w s a.schema)
            (lift-Yields (require_lifecycle_state r (stopped ∷ running ∷ [])) _ (rw a.state_is refl)
              (bind-Yields (exact_owned_vm host file_stem name root r) _
                (owned_Yields host file_stem name root w r s (rw a.state_is refl) a.local a.proven)
                (from_off r (machine s) (machine s).power_state is_off (rw a.state_is refl)
                  (power_on-Yields s r refl (rw a.state_is refl) a.schema a.local a.proven))))))

  -- On such a platform: if the cell is running, schema-valid and of this installation and its own
  -- virtual machine is isolated and running, `stop_cell` reports the cell stopped and changed,
  -- and leaves the virtual machine off and the redacted record saved as stopped and ready.
  pub stop_cell-Yields :
      (s : S)
      → AtRest s running
      → (machine s).power_state ≡ ProviderPowerState.running
      → Yields handle
          (stop_cell host file_stem name root (stored s).id)
          s
          (record { cell_id = (stored s).id; state = stopped; changed = true })
          (put
            (redact_cell_diagnostic (moved (redact_cell_diagnostic (stored s)) stopped ready clock))
            (power off s))
  unfolding stop_cell stop_from require_lifecycle_state redact_cell_diagnostic CellState-discrete
  stop_cell-Yields s a is_on =
      let r = redact_cell_diagnostic (stored s) in
      lift-Yields (require_provider name) _ a.supported (
        perform-Yields acquire_mutation_lock _ (w.lock s) (
          bind-Yields (load_cell host file_stem (stored s).id) _
            (load_cell-Yields host file_stem w s a.schema)
            (lift-Yields (require_lifecycle_state r (stopped ∷ running ∷ [])) _ (rw a.state_is refl)
              (bind-Yields (exact_owned_vm host file_stem name root r) _
                (owned_Yields host file_stem name root w r s (rw a.state_is refl) a.local a.proven)
                (from_running r (machine s) (machine s).power_state is_on
                  (power_off-Yields s r refl (rw a.state_is refl) a.schema a.local a.proven))))))
