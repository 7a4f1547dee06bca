-- ===== src/Store/Tests.antt =====
-- Two records of cells, and the theorems there.
use vm_cell_manager.Prelude.{◌≡◌, ◌↔◌, false, some, none, List, [], ◌∷◌, ok}
use vm_cell_manager.Platform.{GuestOs}
use vm_cell_manager.Cell.{CellRecord, creating, intent_recorded}
use vm_cell_manager.Engine.Errors.{ownership_not_proven, durable_error_code}
use vm_cell_manager.Store.{redact_cell_diagnostic, validate_unique_cell_job_ids}
use vm_cell_manager.Store.Redacted.{
  IsKept, redact_cell_diagnostic-durable_error_code, redact_cell_diagnostic-IsKept,
}
use vm_cell_manager.Store.Unique.{IsDistinct, job_ids, validate_unique_cell_job_ids_iff}

abbrev cell_with_job : CellRecord
cell_with_job = record {
  schema_version = 2;
  id = 7;
  provider = "qemu";
  spec = record {
    image = "linux";
    provider = some "qemu";
    cpu_count = 1;
    memory_mib = 512;
    ttl_seconds = none;
    accelerator = none;
    allow_tcg = false;
  };
  image = record {
    image_id = "linux";
    guest_os = some GuestOs.linux;
    provider = "qemu";
    disk_format = "qcow2";
    path = "base.qcow2";
    sha256 = "aa";
    file_size = 1024;
  };
  ownership = record {
    schema_version = 1;
    install_id = 1;
    operation_id = 3;
    provider_object_name = "vmcell-7";
    provider_marker = "vmcell:v1:1:7:3";
    configuration_path = "state/runtime/7/qemu";
    overlay_path = "state/runtime/7/cell.qcow2";
  };
  provider_object = none;
  state = creating;
  phase = intent_recorded;
  created_at = 10;
  updated_at = 10;
  expires_at = none;
  last_error = some "provider said: disk full";
  job = some (record { job_id = 5; job_spec_sha256 = "bb"; started_at = 9 });
}

abbrev two_cells : List CellRecord
two_cells = cell_with_job ∷ record cell_with_job { id = 8 } ∷ []

validate_unique_cell_job_ids_iff_example :
    (validate_unique_cell_job_ids [] two_cells ≡ ok tt) ↔ IsDistinct (job_ids two_cells)
validate_unique_cell_job_ids_iff_example = validate_unique_cell_job_ids_iff two_cells

redact_cell_diagnostic-durable_error_code_example :
    (redact_cell_diagnostic (record cell_with_job {
      last_error = some (durable_error_code ownership_not_proven);
    })).last_error
    ≡ some (durable_error_code ownership_not_proven)
redact_cell_diagnostic-durable_error_code_example =
    redact_cell_diagnostic-durable_error_code cell_with_job ownership_not_proven

redact_cell_diagnostic-IsKept_example :
    IsKept (redact_cell_diagnostic cell_with_job).last_error
    × (redact_cell_diagnostic (redact_cell_diagnostic cell_with_job)
        ≡ redact_cell_diagnostic cell_with_job)
redact_cell_diagnostic-IsKept_example = redact_cell_diagnostic-IsKept cell_with_job
