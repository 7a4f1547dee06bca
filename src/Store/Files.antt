-- ===== src/Store/Files.antt =====
-- `load_cell`, `save_cell_with_mutation`, `list_cells` and `load_image` of src/state/mod.rs, as
-- programs over the reads and writes of files.
use vm_cell_manager.Prelude.{
  String, Option, List, [], map, ◌!=◌, nat_eq, string_eq, option_eq, Result, ok, err, reject_if,
  map_err,
}
use vm_cell_manager.Host.{Uuid, Host}
use vm_cell_manager.Image.{ImageId, ImageRecord}
use vm_cell_manager.Cell.{CellId, CellRecord, job_correlation_eq}
use vm_cell_manager.Engine.Errors.{
  EngineError, state, not_found, identity_mismatch, job_correlation_integrity,
}
use vm_cell_manager.Program.{
  Program, ◌>>=◌, ◌>>◌, perform, catch, pure, lift, validate_root, read_cell, read_cells,
  write_cell, read_image,
}
use vm_cell_manager.Store.{
  redact_cell_diagnostic, validate_cell_schema, validate_files, validate_unique_cell_job_ids,
  validate_image_schema, with_cell,
}

-- The `match` on the record that a save finds.
unfoldable pub check_existing_job :
    CellRecord → Result EngineError CellRecord → Result EngineError (Unit {0})
check_existing_job r (ok existing) =
    reject_if (existing.job != r.job) (state job_correlation_integrity)
check_existing_job r (err (state not_found)) = ok tt
check_existing_job r (err e) = err e

module _ (host : Host) (file_stem : Uuid → Option String) where
  unfoldable pub validate_unique_cell_job_id : CellRecord → Program (Unit {0})
  validate_unique_cell_job_id r = do
    files ← perform read_cells
    cells ← lift (map_err state (validate_files host files))
    lift (map_err state (validate_unique_cell_job_ids [] (with_cell r cells)))

  unfoldable pub load_cell : CellId → Program CellRecord
  load_cell id = do
    r ← perform (read_cell id)
    lift (map_err state (validate_cell_schema host (file_stem id) r))
    lift (reject_if (r.id != id) (state identity_mismatch))
    validate_unique_cell_job_id (redact_cell_diagnostic r)
    pure (redact_cell_diagnostic r)

  -- `save_cell_unchecked` on the redacted record.
  unfoldable pub save_redacted : CellRecord → Program (Unit {0})
  save_redacted r = do
    lift (map_err state (validate_cell_schema host (file_stem r.id) r))
    existing ← catch (load_cell r.id)
    lift (check_existing_job r existing)
    validate_unique_cell_job_id r
    perform (write_cell r)

  -- `save_cell_with_mutation`
  unfoldable pub save_cell : CellRecord → Program (Unit {0})
  save_cell r = do
    perform validate_root
    save_redacted (redact_cell_diagnostic r)
    perform validate_root

  unfoldable pub list_cells : Program (List CellRecord)
  list_cells = do
    files ← perform read_cells
    cells ← lift (map_err state (validate_files host files))
    lift (map_err state (validate_unique_cell_job_ids [] cells))
    pure (map redact_cell_diagnostic cells)

-- `load_image`; `image_stem` is `Path::file_stem` of an image's file.
unfoldable pub load_image : (ImageId → Option String) → ImageId → Program ImageRecord
load_image image_stem id = do
  r ← perform (read_image id)
  lift (map_err state (validate_image_schema (image_stem id) r))
  lift (reject_if (r.id != id) (state identity_mismatch))
  pure r
