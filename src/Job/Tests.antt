-- ===== src/Job/Tests.antt =====
-- A context with a digest, and the theorems there.
use vm_cell_manager.Prelude.{
  ◌==◌, string_eq, ◌≡◌, ◌≢◌, ℕ, nat-discrete, ◌+◌, ◌-◌, ◌*◌, ◌≤◌, ◌<◌, String, false, none, some,
  ok, err, refl,
}
use vm_cell_manager.Platform.{GuestOs}
use vm_cell_manager.Cell.{CellRecord, creating, intent_recorded, schema_version_for_job}
use vm_cell_manager.Store.{is_lowercase_sha256, validate_cell_schema}
use vm_cell_manager.Host.{Host}
use vm_cell_manager.Job.{
  JobRunContext, invalid_spec_digest, new_context, new_correlation, correlation, result_metadata,
}
use vm_cell_manager.Job.Bound.{new_context-correlation, result_metadata-IsTimed}

abbrev digest : String
digest = "aaaaaaaaaaaaaaaabbbbbbbbbbbbbbbb00000000000000001234567890abcdef"

abbrev context : JobRunContext
context = record { job_id = 5; job_spec_sha256 = digest; started_at = 9000000 }

context_made : new_context 5 digest 9000000 ≡ ok context
unfolding new_context is_lowercase_sha256 nat-discrete
context_made = refl

nonzero : ◌≢◌ {A = ℕ} 5 0
nonzero h = cc

upper_case_refused : new_context 5 "ABC" 9 ≡ err invalid_spec_digest
unfolding new_context is_lowercase_sha256 nat-discrete
upper_case_refused = refl

seventeen_milliseconds : (result_metadata context 26999999).elapsed_milliseconds ≡ 17
unfolding result_metadata
seventeen_milliseconds = refl

clock_ran_backwards : (result_metadata context 8).elapsed_milliseconds ≡ 0
unfolding result_metadata
clock_ran_backwards = refl

abbrev plain_host : Host
plain_host = record {
  uuid_text = λ n. "id";
  parse_uuid = λ s. some 7;
  join = λ a b. a;
  paths_equal = λ a b. a == b;
  eq_ignore_case = λ a b. a == b;
}

abbrev cell_with_job : CellRecord
cell_with_job = record {
  schema_version = 2;
  id = 7;
  provider = "qemu";
  spec = record {
    image = "linux";
    provider = some "qemu";
    cpu_count = 1;
    memory_mib = 512;
    ttl_seconds = none;
    accelerator = none;
    allow_tcg = false;
  };
  image = record {
    image_id = "linux";
    guest_os = some GuestOs.linux;
    provider = "qemu";
    disk_format = "qcow2";
    path = "base.qcow2";
    sha256 = "aa";
    file_size = 1024;
  };
  ownership = record {
    schema_version = 1;
    install_id = 1;
    operation_id = 3;
    provider_object_name = "vmcell-7";
    provider_marker = "vmcell:v1:1:7:3";
    configuration_path = "state/runtime/7/qemu";
    overlay_path = "state/runtime/7/cell.qcow2";
  };
  provider_object = none;
  state = creating;
  phase = intent_recorded;
  created_at = 10;
  updated_at = 10;
  expires_at = none;
  last_error = some "provider said: disk full";
  job = some (record { job_id = 5; job_spec_sha256 = "bb"; started_at = 9 });
}

abbrev context_cell : CellRecord
context_cell = record cell_with_job { job = some (correlation context) }

context_cell_version : context_cell.schema_version ≡ schema_version_for_job context_cell.job
unfolding schema_version_for_job
context_cell_version = refl

new_context-correlation_example :
    (new_correlation 5 digest 9000000 ≡ ok (correlation context))
    × (validate_cell_schema plain_host (some "id") context_cell ≡ ok tt)
new_context-correlation_example =
    new_context-correlation plain_host 5 digest 9000000 context context_cell nonzero context_made
      refl refl context_cell_version

result_metadata-IsTimed_example :
    let m = result_metadata context 26999999 in
    (m.started_at ≤ m.completed_at)
    × (m.elapsed_milliseconds * 1000000 ≤ m.completed_at - m.started_at)
    × (m.completed_at - m.started_at < (m.elapsed_milliseconds + 1) * 1000000)
result_metadata-IsTimed_example = result_metadata-IsTimed context 26999999
