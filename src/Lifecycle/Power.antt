-- ===== src/Lifecycle/Power.antt =====
-- `start_cell` and `stop_cell` of src/engine/mod.rs.
pub mod Confirmed
pub mod Started
pub mod Answered
pub mod Succeeds
use vm_cell_manager.Prelude.{
  String, Bool, true, Option, [], ◌∷◌, ◌==◌, ◌!=◌, ◌&&◌, string_eq, if◌then◌else◌,
}
use vm_cell_manager.Host.{Uuid, Host}
use vm_cell_manager.Cell.{CellId, CellState, stopped, running, cell_state_eq, CellRecord}
use vm_cell_manager.Provider.{
  ProviderVm, ProviderPowerState, off, paused, saved, other, power_state_eq, new_authority,
}
use vm_cell_manager.Engine.Errors.{unexpected_power_state}
use vm_cell_manager.Engine.Identity.{validate_local_ownership_record}
use vm_cell_manager.Program.{
  Program, finish, call, ◌>>=◌, ◌>>◌, perform, pure, lift, fail, acquire_mutation_lock,
  acquire_installation_authority, pin_cell_runtime, start_vm, stop_vm, verify_registered_image,
}
use vm_cell_manager.Store.Files.{load_cell}
use vm_cell_manager.Lifecycle.{
  OperationReport, fail_if, require_lifecycle_state, bound_variant, require_provider,
  exact_owned_vm, settle_record,
}

-- The check of the immutable parent before QEMU starts.
unfoldable pub verify_parent : CellRecord → Program (Unit {0})
verify_parent r =
    if r.provider == "qemu" then perform (verify_registered_image (bound_variant r)) else pure tt

module _ (host : Host) (file_stem : Uuid → Option String) (name root : String) where
  -- The two branches of `start_cell` that start the virtual machine, which differ in the guard only:
  -- a paused one is started for QEMU.
  unfoldable pub power_on : CellRecord → ProviderVm → Program OperationReport
  power_on r before = do
    verify_parent r
    install ← perform acquire_installation_authority
    lift (validate_local_ownership_record host name root r install)
    perform (pin_cell_runtime r.id r.ownership.configuration_path r.ownership.overlay_path)
    perform (start_vm (new_authority r) before)
    after ← exact_owned_vm host file_stem name root r
    fail_if (after.power_state != ProviderPowerState.running)
        (unexpected_power_state after.power_state)
    settle_record host file_stem name root r running true

  unfoldable pub start_from : ProviderPowerState → CellRecord → ProviderVm → Program OperationReport
  start_from ProviderPowerState.running r before =
      settle_record host file_stem name root r running (r.state != running)
  start_from off r before =
      if r.state != CellState.destroyed
      then power_on r before
      else fail (unexpected_power_state off)
  start_from paused r before =
      if r.provider == "qemu" && r.state != CellState.destroyed
      then power_on r before
      else fail (unexpected_power_state paused)
  start_from saved r before = fail (unexpected_power_state saved)
  start_from (other s) r before = fail (unexpected_power_state (other s))

  unfoldable pub start_cell : CellId → Program OperationReport
  start_cell id = do
    lift (require_provider name)
    perform acquire_mutation_lock
    r ← load_cell host file_stem id
    lift (require_lifecycle_state r (stopped ∷ running ∷ []))
    before ← exact_owned_vm host file_stem name root r
    start_from before.power_state r before

  unfoldable pub power_off : CellRecord → ProviderVm → Program OperationReport
  power_off r before = do
    install ← perform acquire_installation_authority
    lift (validate_local_ownership_record host name root r install)
    perform (pin_cell_runtime r.id r.ownership.configuration_path r.ownership.overlay_path)
    perform (stop_vm (new_authority r) before)
    after ← exact_owned_vm host file_stem name root r
    fail_if (after.power_state != off) (unexpected_power_state after.power_state)
    settle_record host file_stem name root r stopped true

  unfoldable pub stop_from : ProviderPowerState → CellRecord → ProviderVm → Program OperationReport
  stop_from off r before = settle_record host file_stem name root r stopped (r.state != stopped)
  stop_from ProviderPowerState.running r before = power_off r before
  stop_from paused r before = fail (unexpected_power_state paused)
  stop_from saved r before = fail (unexpected_power_state saved)
  stop_from (other s) r before = fail (unexpected_power_state (other s))

  unfoldable pub stop_cell : CellId → Program OperationReport
  stop_cell id = do
    lift (require_provider name)
    perform acquire_mutation_lock
    r ← load_cell host file_stem id
    lift (require_lifecycle_state r (stopped ∷ running ∷ []))
    before ← exact_owned_vm host file_stem name root r
    stop_from before.power_state r before
