-- ===== src/Lifecycle/Reconcile.antt =====
-- `reconcile_record` and `inspect_cell` of src/engine/mod.rs, with the classification of a status.
pub mod Meaning
pub mod Inspected
use vm_cell_manager.Prelude.{
  String, Bool, true, false, not, Option, none, some, List, [], ◌∷◌, ◌==◌, ◌!=◌, ◌&&◌, ◌||◌,
  string_eq, is_empty, is_ok, Result, ok, err, if◌then◌else◌,
}
use vm_cell_manager.Host.{Uuid, Host}
use vm_cell_manager.Cell.{
  CellId, CellState, creating, stopped, running, destroying, failed, cell_state_eq, CellPhase,
  provider_object_created, provider_object_claimed, destroying_provisioning, cell_phase_eq,
  CellRecord, ProviderObjectIdentity,
}
use vm_cell_manager.Provider.{ProviderVm, ProviderPowerState, off, by_id, by_name}
use vm_cell_manager.Engine.Errors.{EngineError}
use vm_cell_manager.Engine.Identity.{
  Reason, local_ownership, object_after_tombstone, name_occupied_after_tombstone,
  runtime_after_tombstone, ownership_drift, prove_creation_identity, prove_destroy_identity,
}
use vm_cell_manager.Guest.Recovery.{
  RequiredAction, no_action, retry_lifecycle, recovery_required, manual_review,
}
use vm_cell_manager.Program.{
  Program, finish, call, ◌>>=◌, ◌>>◌, perform, catch, pure, inspect_vm, runtime_entry_exists,
}
use vm_cell_manager.Store.Files.{load_cell}
use vm_cell_manager.Lifecycle.{validate_local_ownership}

pub data ReconciliationStatus : Type 0 where
  exact_owned manifest_only provider_missing destroyed : ReconciliationStatus
  unproven_provider_object : String → ReconciliationStatus
  ownership_mismatch : List Reason → ReconciliationStatus
  state_drift : CellState → ProviderPowerState → ReconciliationStatus
  provisioning : CellPhase → ReconciliationStatus

pub data OwnershipClassification : Type 0 where
  proven unproven mismatch phase_proven not_applicable : OwnershipClassification

pub data ReconciliationCode : Type 0 where
  exact_owned manifest_only provider_missing unproven_provider_object : ReconciliationCode
  ownership_mismatch state_drift provisioning destroyed : ReconciliationCode

pub record ReconciliationClassification : Type 0 where
  pub code : ReconciliationCode
  pub ownership : OwnershipClassification
  pub required_action : RequiredAction

abbrev pub classified :
    ReconciliationCode → OwnershipClassification → RequiredAction → ReconciliationClassification
classified c o a = record { code = c; ownership = o; required_action = a }

unfoldable pub classification : ReconciliationStatus → ReconciliationClassification
classification exact_owned = classified ReconciliationCode.exact_owned proven no_action
classification manifest_only = classified ReconciliationCode.manifest_only unproven manual_review
classification provider_missing =
    classified ReconciliationCode.provider_missing unproven manual_review
classification (unproven_provider_object _) =
    classified ReconciliationCode.unproven_provider_object unproven manual_review
classification (ownership_mismatch _) =
    classified ReconciliationCode.ownership_mismatch mismatch manual_review
classification (state_drift _ _) = classified ReconciliationCode.state_drift proven retry_lifecycle
classification (provisioning _) =
    classified ReconciliationCode.provisioning phase_proven RequiredAction.recovery_required
classification ReconciliationStatus.destroyed =
    classified ReconciliationCode.destroyed not_applicable no_action

unfoldable pub power_state_matches : CellState → ProviderPowerState → Bool
power_state_matches stopped off = true
power_state_matches running ProviderPowerState.running = true
power_state_matches creating _ = true
power_state_matches CellState.destroying _ = true
power_state_matches failed _ = true
power_state_matches _ _ = false

abbrev pub Reconciled : Type 0
Reconciled = Option ProviderVm × ReconciliationStatus

abbrev pub is_created_or_claimed : CellPhase → Bool
is_created_or_claimed p = p == provider_object_created || p == provider_object_claimed

module _ (host : Host) where
  -- What the record and the snapshot found by the recorded id come to.
  unfoldable pub compare_found : CellRecord → ProviderVm → Reconciled
  compare_found r vm =
      if is_created_or_claimed r.phase
        && is_ok (
            prove_creation_identity host r vm (
              r.phase == provider_object_claimed
              || vm.ownership_marker == r.ownership.provider_marker))
      then (some vm, provisioning r.phase)
      else if r.phase == destroying_provisioning && is_ok (prove_destroy_identity host r vm)
      then (some vm, provisioning r.phase)
      else if not (is_empty (ownership_drift host r vm))
      then (some vm, ownership_mismatch (ownership_drift host r vm))
      else if not (power_state_matches r.state vm.power_state)
      then (some vm, state_drift r.state vm.power_state)
      else (some vm, exact_owned)

  abbrev pub reconcile_found : CellRecord → Option ProviderVm → Program Reconciled
  reconcile_found r none = pure (none, provider_missing)
  reconcile_found r (some vm) = pure (compare_found r vm)

  abbrev pub reconcile_unrecorded : Option ProviderVm → Program Reconciled
  reconcile_unrecorded none = pure (none, manifest_only)
  reconcile_unrecorded (some vm) = pure (some vm, unproven_provider_object vm.id)

  -- A tombstone, once the recorded id is known to be absent: first the name, then the runtime.
  abbrev pub reconcile_runtime : Bool → Program Reconciled
  reconcile_runtime true = pure (none, ownership_mismatch (runtime_after_tombstone ∷ []))
  reconcile_runtime false = pure (none, ReconciliationStatus.destroyed)

  abbrev pub reconcile_name : CellRecord → Option ProviderVm → Program Reconciled
  reconcile_name r (some vm) =
      pure (some vm, ownership_mismatch (name_occupied_after_tombstone ∷ []))
  reconcile_name r none = do exists ← perform (runtime_entry_exists r.id); reconcile_runtime exists

  unfoldable pub reconcile_free : CellRecord → Program Reconciled
  reconcile_free r = do
    found ← perform (inspect_vm (by_name r.ownership.provider_object_name))
    reconcile_name r found

  abbrev pub reconcile_absent : CellRecord → Option ProviderVm → Program Reconciled
  reconcile_absent r (some vm) = pure (some vm, ownership_mismatch (object_after_tombstone ∷ []))
  reconcile_absent r none = reconcile_free r

  unfoldable pub reconcile_tombstone :
      CellRecord → Option ProviderObjectIdentity → Program Reconciled
  reconcile_tombstone r none = reconcile_free r
  reconcile_tombstone r (some identity) = do
    found ← perform (inspect_vm (by_id identity.id))
    reconcile_absent r found

  unfoldable pub reconcile_live : CellRecord → Option ProviderObjectIdentity → Program Reconciled
  reconcile_live r none = do
    found ← perform (inspect_vm (by_name r.ownership.provider_object_name))
    reconcile_unrecorded found
  reconcile_live r (some identity) = do
    found ← perform (inspect_vm (by_id identity.id))
    reconcile_found r found

  abbrev pub reconcile_local : CellRecord → Result EngineError (Unit {0}) → Program Reconciled
  reconcile_local r (err e) = pure (none, ownership_mismatch (local_ownership e ∷ []))
  reconcile_local r (ok _) =
      if r.state == CellState.destroyed
      then reconcile_tombstone r r.provider_object
      else reconcile_live r r.provider_object

  module _ (file_stem : Uuid → Option String) (name root : String) where
    unfoldable pub reconcile_record : CellRecord → Program Reconciled
    reconcile_record r = do
      checked ← catch (validate_local_ownership host file_stem name root r)
      reconcile_local r checked

    -- `inspect_cell`, with the record and the classification of the status.
    unfoldable pub inspect_cell :
        CellId → Program (CellRecord × Reconciled × ReconciliationClassification)
    inspect_cell id = do
      r ← load_cell host file_stem id
      found ← reconcile_record r
      pure (r, found, classification found.1)
