-- ===== src/Cell.antt =====
-- src/core/cell.rs, src/core/ownership.rs, src/core/lifecycle.rs and the durable part of
-- src/core/job.rs: the record kept for a cell.
pub mod Transitions
mod Tests
use Prim.Native.String
use vm_cell_manager.Prelude.{
  ℕ, String, Bool, Option, none, some, Eq, nat_eq, string_eq, nat-discrete, String-discrete,
}
use vm_cell_manager.Host.{Uuid, Host}
use vm_cell_manager.Image.{ImageId, ImageBinding}

abbrev pub CellId : Type 0
CellId = Uuid

abbrev pub cell_schema_version : ℕ
cell_schema_version = 1

abbrev pub job_correlated_cell_schema_version : ℕ
job_correlated_cell_schema_version = 2

abbrev pub min_memory_mib : ℕ
min_memory_mib = 512

abbrev pub max_memory_mib : ℕ
max_memory_mib = 1048576

abbrev pub max_cpu_count : ℕ
max_cpu_count = 64

abbrev pub ownership_marker_schema : ℕ
ownership_marker_schema = 1

pub data CellState : Type 0 where
  creating stopped running destroying destroyed failed : CellState

pub data CellPhase : Type 0 where
  intent_recorded overlay_created provider_object_created provider_object_claimed : CellPhase
  ready destroying destroying_provisioning destroyed : CellPhase

unfoldable pub CellState-discrete : Discrete CellState
CellState-discrete = hlevel

unfoldable pub CellPhase-discrete : Discrete CellPhase
CellPhase-discrete = hlevel

instance abbrev pub cell_state_eq : Eq CellState
cell_state_eq = record { dec = CellState-discrete }

instance abbrev pub cell_phase_eq : Eq CellPhase
cell_phase_eq = record { dec = CellPhase-discrete }

pub record CellSpec : Type 0 where
  pub image : ImageId
  pub provider : Option String
  pub cpu_count : ℕ
  pub memory_mib : ℕ
  pub ttl_seconds : Option ℕ
  pub accelerator : Option String
  pub allow_tcg : Bool

pub record CellOwnership : Type 0 where
  pub schema_version : ℕ
  pub install_id : Uuid
  pub operation_id : Uuid
  pub provider_object_name : String
  pub provider_marker : String
  pub configuration_path : String
  pub overlay_path : String

pub record ProviderObjectIdentity : Type 0 where
  pub id : String
  pub name : String

pub record JobCorrelation : Type 0 where
  pub job_id : Uuid
  pub job_spec_sha256 : String
  pub started_at : ℕ

unfoldable pub JobCorrelation-discrete : Discrete JobCorrelation
JobCorrelation-discrete = hlevel (nat-discrete, String-discrete)

instance abbrev pub job_correlation_eq : Eq JobCorrelation
job_correlation_eq = record { dec = JobCorrelation-discrete }

pub record CellRecord : Type 0 where
  pub schema_version : ℕ
  pub id : CellId
  pub provider : String
  pub spec : CellSpec
  pub image : ImageBinding
  pub ownership : CellOwnership
  pub provider_object : Option ProviderObjectIdentity
  pub state : CellState
  pub phase : CellPhase
  pub created_at : ℕ
  pub updated_at : ℕ
  pub expires_at : Option ℕ
  pub last_error : Option String
  pub job : Option JobCorrelation

-- `CellRecord::schema_version_for_job`
unfoldable pub schema_version_for_job {ℓ} : {A : Type ℓ} → Option A → ℕ
schema_version_for_job none = cell_schema_version
schema_version_for_job (some _) = job_correlated_cell_schema_version

infixr 66 ◌<>◌
abbrev pub ◌<>◌ : String → String → String
s <> t = String.◌++◌ s t

module _ (host : Host) where
  -- `format!("vmcell-{}", id)`
  unfoldable pub cell_object_name : CellId → String
  cell_object_name id = "vmcell-" <> host.uuid_text id

  -- The ownership marker. The schema number is written by its only value.
  unfoldable pub cell_marker : Uuid → CellId → Uuid → String
  cell_marker install id operation =
      "vmcell:v1:"
      <> host.uuid_text install
      <> ":"
      <> host.uuid_text id
      <> ":"
      <> host.uuid_text operation

  -- `CellOwnership::new`
  unfoldable pub new_ownership : Uuid → CellId → Uuid → String → String → CellOwnership
  new_ownership install id operation configuration overlay = record {
    schema_version = ownership_marker_schema;
    install_id = install;
    operation_id = operation;
    provider_object_name = cell_object_name id;
    provider_marker = cell_marker install id operation;
    configuration_path = configuration;
    overlay_path = overlay;
  }
