-- ===== src/Lifecycle/Collect.antt =====
-- `gc_expired_at` of src/engine/mod.rs: the destruction of the cells whose lifetime has ended.
pub mod Disposed
pub mod Collected
use vm_cell_manager.Prelude.{
  ℕ, String, Bool, true, false, not, Option, none, some, List, [], ◌∷◌, ◌==◌, ◌!=◌, ◌&&◌, nat_eq,
  string_eq, any, ltb, Result, ok, err, if◌then◌else◌,
}
use vm_cell_manager.Host.{Uuid, Host}
use vm_cell_manager.Cell.{CellId, CellRecord}
use vm_cell_manager.Guest.{GuestOperationRecord, is_terminal}
use vm_cell_manager.Engine.Errors.{
  EngineError, ownership_not_proven, provider_drift, unexpected_power_state,
}
use vm_cell_manager.Program.{
  Program, finish, call, ◌>>=◌, ◌>>◌, perform, catch, pure, lift, acquire_mutation_lock,
  list_guest_operations,
}
use vm_cell_manager.Store.Files.{list_cells}
use vm_cell_manager.Lifecycle.{OperationReport, require_provider}
use vm_cell_manager.Lifecycle.Destroy.{destroy_cell_locked}

pub data GcDisposition : Type 0 where
  no_ttl not_expired in_flight_guest_operation destroyed already_destroyed : GcDisposition
  ownership_mismatch failed : GcDisposition

pub record GcEntry : Type 0 where
  pub cell_id : CellId
  pub expires_at : Option ℕ
  pub disposition : GcDisposition

-- A nonterminal guest operation of the cell.
abbrev pub is_in_flight : List GuestOperationRecord → CellId → Bool
is_in_flight operations id = any (λ o. o.cell_id == id && not (is_terminal o.phase)) operations

-- The `match` on the outcome of a destruction.
unfoldable pub gc_disposition : Result EngineError OperationReport → GcDisposition
gc_disposition (ok report) = if report.changed then destroyed else already_destroyed
gc_disposition (err ownership_not_proven) = ownership_mismatch
gc_disposition (err provider_drift) = ownership_mismatch
gc_disposition (err (unexpected_power_state _)) = ownership_mismatch
gc_disposition (err _) = failed

abbrev pub entry_of : CellRecord → GcDisposition → GcEntry
entry_of r d = record { cell_id = r.id; expires_at = r.expires_at; disposition = d }

module _ (host : Host) (file_stem : Uuid → Option String) (name root : String) where
  unfoldable pub collect_expired : CellRecord → Program GcDisposition
  collect_expired r = do
    outcome ← catch (destroy_cell_locked host file_stem name root r.id)
    pure (gc_disposition outcome)

  -- The disposition of one record.
  unfoldable pub collect_cell :
      ℕ → List GuestOperationRecord → CellRecord → Option ℕ → Program GcDisposition
  collect_cell evaluated_at operations r none = pure no_ttl
  collect_cell evaluated_at operations r (some expires_at) =
      if ltb evaluated_at expires_at
      then pure not_expired
      else if is_in_flight operations r.id
      then pure in_flight_guest_operation
      else collect_expired r

  abbrev pub collect_one : ℕ → List GuestOperationRecord → CellRecord → Program GcEntry
  collect_one evaluated_at operations r =
      collect_cell evaluated_at operations r r.expires_at >>= λ d. pure (entry_of r d)

  -- The loop over the records, which skips those of another provider.
  unfoldable pub collect_cells :
      ℕ → List GuestOperationRecord → List CellRecord → Program (List GcEntry)
  collect_cells evaluated_at operations [] = pure []
  collect_cells evaluated_at operations (r ∷ cells) =
      let rest = collect_cells evaluated_at operations cells in
      if r.provider != name
      then rest
      else collect_one evaluated_at operations r >>= λ entry.
          rest >>= λ entries. pure (entry ∷ entries)

  unfoldable pub gc_expired_at : ℕ → Program (List GcEntry)
  gc_expired_at evaluated_at = do
    lift (require_provider name)
    perform acquire_mutation_lock
    operations ← perform list_guest_operations
    cells ← list_cells host file_stem
    collect_cells evaluated_at operations cells
