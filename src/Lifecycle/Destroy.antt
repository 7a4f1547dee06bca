-- ===== src/Lifecycle/Destroy.antt =====
-- `destroy_cell_locked` of src/engine/mod.rs and its two callers: the destruction of a cell in any
-- phase, and its repetition after a crash.
pub mod Entered
pub mod Held
pub mod Tombstone
pub mod Removed
use vm_cell_manager.Prelude.{
  String, Bool, true, false, not, Option, none, some, ◌==◌, ◌!=◌, ◌&&◌, nat_eq, any, ok_or, is_some,
  if◌then◌else◌,
}
use vm_cell_manager.Host.{Uuid, Host}
use vm_cell_manager.Cell.{
  CellId, CellState, destroying, cell_state_eq, CellPhase, intent_recorded, overlay_created,
  provider_object_created, provider_object_claimed, ready, destroying_provisioning, CellRecord,
  ProviderObjectIdentity,
}
use vm_cell_manager.Provider.{
  ProviderVm, ClaimVmRequest, off, power_state_eq, by_id, by_name, new_authority,
}
use vm_cell_manager.Guest.{GuestOperationRecord, is_terminal}
use vm_cell_manager.Engine.Errors.{
  integrity, ownership_not_proven, provider_drift, unexpected_power_state,
}
use vm_cell_manager.Engine.Identity.{
  prove_ownership, prove_creation_identity, prove_destroy_identity, validate_local_ownership_record,
}
use vm_cell_manager.Program.{
  Program, finish, call, ◌>>=◌, ◌>>◌, perform, pure, lift, fail, acquire_mutation_lock,
  acquire_installation_authority, inspect_vm, claim_vm, stop_vm, remove_vm, pin_cell_runtime,
  remove_cell_runtime, runtime_entry_exists, list_guest_operations, now,
}
use vm_cell_manager.Store.Files.{load_cell, save_cell}
use vm_cell_manager.Lifecycle.{OperationReport, operation_report, fail_if, moved, require_provider}
use vm_cell_manager.Lifecycle.Reconcile.{ReconciliationStatus, Reconciled, reconcile_record}

-- A record of which a destruction holds the phase before it saves the intent.
pub record Claimed : Type 0 where
  pub record_ : CellRecord
  pub vm : ProviderVm
  pub provisioning : Bool

abbrev pub destroying_phase : Bool → CellPhase
destroying_phase true = destroying_provisioning
destroying_phase false = CellPhase.destroying

unfoldable pub tombstone_report : CellRecord → ReconciliationStatus → Program OperationReport
tombstone_report r ReconciliationStatus.destroyed = pure (operation_report r false)
tombstone_report r _ = fail provider_drift

module _ (host : Host) (file_stem : Uuid → Option String) (name root : String) where
  unfoldable pub destroy_tombstone : CellRecord → Program OperationReport
  destroy_tombstone r = do
    found ← reconcile_record host file_stem name root r
    tombstone_report r found.1

  -- The end of every destruction.
  unfoldable pub commit_destroyed : Uuid → CellRecord → Program OperationReport
  commit_destroyed install r = do
    lift (validate_local_ownership_record host name root r install)
    t ← perform now
    save_cell host file_stem (moved r CellState.destroyed CellPhase.destroyed t)
    pure (operation_report (moved r CellState.destroyed CellPhase.destroyed t) true)

  -- The branch for a provider object that was created and not yet claimed.
  unfoldable pub claim_created : CellRecord → ProviderVm → Program Claimed
  claim_created r vm = do
    lift (prove_creation_identity host r vm false)
    claimed ← perform (
        claim_vm (new_authority r)
          (record { expected = vm; ownership_marker = r.ownership.provider_marker }))
    lift (prove_creation_identity host r claimed true)
    t ← perform now
    save_cell host file_stem (moved r r.state provider_object_claimed t)
    pure (record {
      record_ = moved r r.state provider_object_claimed t;
      vm = claimed;
      provisioning = true;
    })

  -- The `match` on the phase, with the proof that each phase asks for.
  unfoldable pub claim_for_destroy : CellPhase → CellRecord → ProviderVm → Program Claimed
  claim_for_destroy provider_object_created r vm = claim_created r vm
  claim_for_destroy provider_object_claimed r vm = do
    lift (prove_creation_identity host r vm true)
    pure (record { record_ = r; vm = vm; provisioning = true })
  claim_for_destroy destroying_provisioning r vm = do
    lift (prove_destroy_identity host r vm)
    pure (record { record_ = r; vm = vm; provisioning = true })
  claim_for_destroy ready r vm = do
    lift (prove_ownership host r vm)
    pure (record { record_ = r; vm = vm; provisioning = false })
  claim_for_destroy CellPhase.destroying r vm = do
    lift (prove_ownership host r vm)
    pure (record { record_ = r; vm = vm; provisioning = false })
  claim_for_destroy intent_recorded r vm = fail ownership_not_proven
  claim_for_destroy overlay_created r vm = fail ownership_not_proven
  claim_for_destroy CellPhase.destroyed r vm = fail ownership_not_proven

  -- The stop of a virtual machine that is not off, and the second proof of its identity.
  unfoldable pub stop_for_destroy : Uuid → CellRecord → ProviderVm → Program ProviderVm
  stop_for_destroy install r vm = do
    lift (validate_local_ownership_record host name root r install)
    perform (stop_vm (new_authority r) vm)
    found ← perform (inspect_vm (by_id vm.id))
    after ← lift (ok_or provider_drift found)
    lift (prove_destroy_identity host r after)
    fail_if (after.power_state != off) (unexpected_power_state after.power_state)
    pure after

  unfoldable pub power_down : Uuid → CellRecord → ProviderVm → Program ProviderVm
  power_down install r vm = if vm.power_state != off then stop_for_destroy install r vm else pure vm

  -- The removal of the virtual machine, the two lookups after it, and the removal of the runtime.
  unfoldable pub remove_object : Uuid → CellRecord → ProviderVm → Program OperationReport
  remove_object install r vm = do
    lift (validate_local_ownership_record host name root r install)
    lift (prove_destroy_identity host r vm)
    perform (remove_vm (new_authority r) vm)
    still ← perform (inspect_vm (by_id vm.id))
    fail_if (is_some still) provider_drift
    named ← perform (inspect_vm (by_name r.ownership.provider_object_name))
    fail_if (is_some named) ownership_not_proven
    lift (validate_local_ownership_record host name root r install)
    perform (remove_cell_runtime r.id)
    commit_destroyed install r

  -- From the saved intent on.
  unfoldable pub destroy_claimed : Uuid → Claimed → Program OperationReport
  destroy_claimed install c = do
    t ← perform now
    save_cell host file_stem (moved c.record_ destroying (destroying_phase c.provisioning) t)
    vm ← power_down install (moved c.record_ destroying (destroying_phase c.provisioning) t) c.vm
    remove_object install (moved c.record_ destroying (destroying_phase c.provisioning) t) vm

  unfoldable pub destroy_present : Uuid → CellRecord → ProviderVm → Program OperationReport
  destroy_present install r vm = do
    perform (pin_cell_runtime r.id r.ownership.configuration_path r.ownership.overlay_path)
    c ← claim_for_destroy r.phase r vm
    destroy_claimed install c

  unfoldable pub remove_runtime : Uuid → CellRecord → Bool → Program OperationReport
  remove_runtime install r false = commit_destroyed install r
  remove_runtime install r true = do
    perform (pin_cell_runtime r.id r.ownership.configuration_path r.ownership.overlay_path)
    lift (validate_local_ownership_record host name root r install)
    perform (remove_cell_runtime r.id)
    commit_destroyed install r

  -- The recorded virtual machine is absent.
  unfoldable pub destroy_absent : Uuid → CellRecord → Program OperationReport
  destroy_absent install r = do
    named ← perform (inspect_vm (by_name r.ownership.provider_object_name))
    fail_if (is_some named) ownership_not_proven
    exists ← perform (runtime_entry_exists r.id)
    remove_runtime install r exists

  abbrev pub destroy_found : Uuid → CellRecord → Option ProviderVm → Program OperationReport
  destroy_found install r (some vm) = destroy_present install r vm
  destroy_found install r none = destroy_absent install r

  -- Without a recorded provider id, either outcome of the lookup by name is refused.
  unfoldable pub destroy_object :
      Uuid → CellRecord → Option ProviderObjectIdentity → Program OperationReport
  destroy_object install r none = do
    named ← perform (inspect_vm (by_name r.ownership.provider_object_name))
    fail ownership_not_proven
  destroy_object install r (some identity) = do
    found ← perform (inspect_vm (by_id identity.id))
    destroy_found install r found

  unfoldable pub destroy_live : CellRecord → Program OperationReport
  destroy_live r = do
    install ← perform acquire_installation_authority
    lift (validate_local_ownership_record host name root r install)
    destroy_object install r r.provider_object

  unfoldable pub destroy_cell_locked : CellId → Program OperationReport
  destroy_cell_locked id = do
    r ← load_cell host file_stem id
    if r.state == CellState.destroyed then destroy_tombstone r else destroy_live r

  unfoldable pub destroy_cell : CellId → Program OperationReport
  destroy_cell id = do
    lift (require_provider name)
    perform acquire_mutation_lock
    destroy_cell_locked id

  -- `destroy_cell_for_run`
  unfoldable pub destroy_cell_for_run : CellId → Program OperationReport
  destroy_cell_for_run id = do
    lift (require_provider name)
    perform acquire_mutation_lock
    operations ← perform list_guest_operations
    fail_if (any (λ o. o.cell_id == id && not (is_terminal o.phase)) operations) integrity
    destroy_cell_locked id
