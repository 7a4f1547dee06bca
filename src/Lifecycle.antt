-- ===== src/Lifecycle.antt =====
-- The lifecycle methods of src/engine/mod.rs, as programs. `name` is the provider's name, `root` the
-- state root, `file_stem` and `image_stem` are `Path::file_stem` of the files of cells and images.
pub mod Single
pub mod Known
pub mod Permits
pub mod Power
pub mod Destroy
pub mod Create
pub mod Collect
pub mod Reconcile
mod Tests
use vm_cell_manager.Prelude.{
  ℕ, String, Bool, true, false, not, Option, none, some, List, [], ◌∷◌, ◌==◌, ◌!=◌, ◌||◌, string_eq,
  contains, ok_or, Result, ok, err, reject_if, if◌then◌else◌,
}
use vm_cell_manager.Host.{Uuid, Host}
use vm_cell_manager.Image.{ImageId, ImageVariant}
use vm_cell_manager.Cell.{
  CellId, CellState, creating, stopped, running, destroying, destroyed, failed, cell_state_eq,
  CellPhase, ready, CellRecord,
}
use vm_cell_manager.Provider.{ProviderVm, ProviderPowerState, by_id, normalized}
use vm_cell_manager.Engine.Errors.{
  EngineError, ownership_not_proven, unsupported_provider, provider_unavailable, lifecycle_conflict,
  durable_error_code,
}
use vm_cell_manager.Engine.Identity.{prove_ownership, validate_local_ownership_record}
use vm_cell_manager.Program.{
  Program, finish, call, ◌>>=◌, ◌>>◌, perform, pure, lift, fail, now, probe, inspect_vm,
  load_installation, verify_registered_image,
}
use vm_cell_manager.Store.Files.{save_cell}

pub record OperationReport : Type 0 where
  pub cell_id : CellId
  pub state : CellState
  pub changed : Bool

unfoldable pub operation_report : CellRecord → Bool → OperationReport
operation_report r changed = record { cell_id = r.id; state = r.state; changed = changed }

-- `if test { return Err(e) }`
abbrev pub fail_if : Bool → EngineError → Program (Unit {0})
fail_if test e = lift (reject_if test e)

unfoldable pub require_lifecycle_state : CellRecord → List CellState → Result EngineError (Unit {0})
require_lifecycle_state r allowed = reject_if (not (contains allowed r.state)) lifecycle_conflict

-- A record with a new state, phase and time.
abbrev pub moved : CellRecord → CellState → CellPhase → ℕ → CellRecord
moved r s p t = record r { state = s; phase = p; updated_at = t }

-- The variant that a cell was created from.
unfoldable pub bound_variant : CellRecord → ImageVariant
bound_variant r = record {
  provider = r.image.provider;
  disk_format = r.image.disk_format;
  path = r.image.path;
  sha256 = r.image.sha256;
  file_size = r.image.file_size;
}

unfoldable pub require_provider : String → Result EngineError (Unit {0})
require_provider name = reject_if (not (name == "hyperv" || name == "qemu")) unsupported_provider

unfoldable pub require_provider_available : String → Program (Unit {0})
require_provider_available name = do
  lift (require_provider name)
  report ← perform probe
  fail_if (not (normalized report).available) provider_unavailable

module _ (host : Host) (file_stem : Uuid → Option String) (name root : String) where
  -- `validate_local_ownership`
  unfoldable pub validate_local_ownership : CellRecord → Program (Unit {0})
  validate_local_ownership r = do
    install ← perform load_installation
    lift (validate_local_ownership_record host name root r install)

  unfoldable pub exact_owned_vm : CellRecord → Program ProviderVm
  exact_owned_vm r = do
    fail_if (r.state == CellState.destroyed) ownership_not_proven
    validate_local_ownership r
    identity ← lift (ok_or ownership_not_proven r.provider_object)
    found ← perform (inspect_vm (by_id identity.id))
    vm ← lift (ok_or ownership_not_proven found)
    lift (prove_ownership host r vm)
    pure vm

  -- The end of a start or a stop.
  unfoldable pub settle_record : CellRecord → CellState → Bool → Program OperationReport
  settle_record r s changed = do
    t ← perform now
    save_cell host file_stem (moved r s ready t)
    pure (operation_report (moved r s ready t) changed)

  unfoldable pub fail_record : {A : Type 0} → CellRecord → EngineError → Program A
  fail_record r e = do
    t ← perform now
    save_cell host file_stem
        (record r { state = failed; updated_at = t; last_error = some (durable_error_code e) })
    fail e
