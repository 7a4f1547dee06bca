-- ===== src/Job.antt =====
-- The identity of a job's run in src/core/job.rs: the context that is made before the lifecycle
-- call, the correlation that its records keep, and the metadata of its result. Times count
-- nanoseconds, as `DateTime` does; the id that `Uuid::new_v4` draws is an argument.
pub mod Bound
mod Tests
use Prim.Native.Nat.{◌/◌}
use vm_cell_manager.Prelude.{
  ℕ, ◌-◌, String, Bool, not, ◌==◌, nat_eq, ltb, Result, ok, ◌>>=◌, ◌>>◌, reject_if, if◌then◌else◌,
}
use vm_cell_manager.Host.{Uuid}
use vm_cell_manager.Cell.{JobCorrelation}
use vm_cell_manager.Store.{is_lowercase_sha256}

pub data JobRunContextError : Type 0 where
  invalid_job_id : JobRunContextError
  invalid_spec_digest : JobRunContextError

-- `JobCorrelation::new`
unfoldable pub new_correlation : Uuid → String → ℕ → Result JobRunContextError JobCorrelation
new_correlation job_id job_spec_sha256 started_at = do
  reject_if (job_id == 0) invalid_job_id
  reject_if (not (is_lowercase_sha256 job_spec_sha256)) invalid_spec_digest
  ok (record { job_id = job_id; job_spec_sha256 = job_spec_sha256; started_at = started_at })

pub record JobRunContext : Type 0 where
  pub job_id : Uuid
  pub job_spec_sha256 : String
  pub started_at : ℕ

-- `JobRunContext::new`, whose `JobId::new` draws `drawn`
unfoldable pub new_context : Uuid → String → ℕ → Result JobRunContextError JobRunContext
new_context drawn job_spec_sha256 started_at = do
  reject_if (not (is_lowercase_sha256 job_spec_sha256)) invalid_spec_digest
  ok (record { job_id = drawn; job_spec_sha256 = job_spec_sha256; started_at = started_at })

unfoldable pub correlation : JobRunContext → JobCorrelation
correlation c = record {
  job_id = c.job_id;
  job_spec_sha256 = c.job_spec_sha256;
  started_at = c.started_at;
}

abbrev pub job_result_schema_version : ℕ
job_result_schema_version = 1

abbrev pub job_result_contract : String
job_result_contract = "vmcell.job-result.v1"

pub record JobResultMetadata : Type 0 where
  pub schema_version : ℕ
  pub contract : String
  pub job_id : Uuid
  pub job_spec_sha256 : String
  pub started_at : ℕ
  pub completed_at : ℕ
  pub elapsed_milliseconds : ℕ

-- `Ord::max`
abbrev pub later : ℕ → ℕ → ℕ
later a b = if ltb a b then b else a

-- `signed_duration_since(started_at).num_milliseconds()`, of a time that is not before the start.
abbrev pub milliseconds_since : ℕ → ℕ → ℕ
milliseconds_since started_at completed_at = (completed_at - started_at) / 1000000

unfoldable pub result_metadata : JobRunContext → ℕ → JobResultMetadata
result_metadata c completed_at = record {
  schema_version = job_result_schema_version;
  contract = job_result_contract;
  job_id = c.job_id;
  job_spec_sha256 = c.job_spec_sha256;
  started_at = c.started_at;
  completed_at = later completed_at c.started_at;
  elapsed_milliseconds = milliseconds_since c.started_at (later completed_at c.started_at);
}
