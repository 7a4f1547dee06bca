-- ===== src/Store.antt =====
-- The cell records of src/state/mod.rs: their schema, the code that is kept of an error, the
-- uniqueness of job ids, and the load and save of a record. `Path::file_stem` of a record's file is
-- the parameter `file_stem`.
pub mod Redacted
pub mod Unique
pub mod Files
mod Tests
use Prim.Native.Char.{code}
use Prim.Native.String
use text.Mathlib.Text.{starts_with}
use vm_cell_manager.Prelude.{
  ℕ, String, Bool, true, false, not, Option, none, some, List, [], ◌∷◌, ◌++◌, ◌==◌, ◌!=◌, ◌&&◌,
  ◌||◌, nat_eq, string_eq, option_eq, leb, length, all, contains, filter, Result, ok, err, ◌>>=◌,
  ◌>>◌, reject_if, if◌then◌else◌,
}
use vm_cell_manager.Host.{Uuid, Host}
use vm_cell_manager.Image.{ImageRecord}
use vm_cell_manager.Cell.{
  CellRecord, JobCorrelation, cell_schema_version, job_correlated_cell_schema_version,
  ownership_marker_schema,
}
use vm_cell_manager.Engine.Errors.{
  StateError, unsupported_schema, identity_mismatch, job_correlation_integrity,
}

-- The code points of a text. The bytes of a text that is not ASCII hold one above 127, which the
-- tests below refuse, as they refuse the code point.
abbrev pub codes : String → List ℕ
codes String.[] = []
codes (String.◌∷◌ c s) = code c ∷ codes s

abbrev pub is_digit : ℕ → Bool
is_digit c = leb b'0' c && leb c b'9'

-- `is_lowercase_sha256` of src/core/job.rs
unfoldable pub is_lowercase_sha256 : String → Bool
is_lowercase_sha256 s =
    length (codes s) == 64 && all (λ c. is_digit c || (leb b'a' c && leb c b'f')) (codes s)

abbrev pub redacted_legacy_error_code : String
redacted_legacy_error_code = "vmcell.legacy.redacted"

abbrev pub is_code_byte : ℕ → Bool
is_code_byte c =
    (leb b'a' c && leb c b'z') || (is_digit c || (c == b'.' || (c == b'_' || c == b'-')))

unfoldable pub is_safe_code : String → Bool
is_safe_code s =
    leb (length (codes s)) 128 && (starts_with s "vmcell." && all is_code_byte (codes s))

abbrev pub redacted_error : Option String → Option String
redacted_error none = none
redacted_error (some s) = some (if is_safe_code s then s else redacted_legacy_error_code)

-- `redact_cell_diagnostic`
unfoldable pub redact_cell_diagnostic : CellRecord → CellRecord
redact_cell_diagnostic r = record r { last_error = redacted_error r.last_error }

-- `validate_job_correlation`; the nil UUID is 0.
unfoldable pub validate_job_correlation : JobCorrelation → Result StateError (Unit {0})
validate_job_correlation job = do
  reject_if (job.job_id == 0) job_correlation_integrity
  reject_if (not (is_lowercase_sha256 job.job_spec_sha256)) job_correlation_integrity

-- The `match` on a cell's schema version and job.
unfoldable pub validate_cell_correlation : ℕ → Option JobCorrelation → Result StateError (Unit {0})
validate_cell_correlation version none =
    reject_if (version != cell_schema_version) job_correlation_integrity
validate_cell_correlation version (some job) = do
  reject_if (version == cell_schema_version) job_correlation_integrity
  validate_job_correlation job

unfoldable pub cell_version_is_known : ℕ → Bool
cell_version_is_known version =
    contains (cell_schema_version ∷ job_correlated_cell_schema_version ∷ []) version

module _ (host : Host) where
  unfoldable pub validate_cell_schema : Option String → CellRecord → Result StateError (Unit {0})
  validate_cell_schema stem r = do
    reject_if (not (cell_version_is_known r.schema_version)) unsupported_schema
    reject_if (r.ownership.schema_version != ownership_marker_schema) unsupported_schema
    reject_if (stem != some (host.uuid_text r.id)) identity_mismatch
    validate_cell_correlation r.schema_version r.job

  -- `read_json_directory` with the check of each file, in the order of the paths.
  unfoldable pub validate_files :
      List (Option String × CellRecord) → Result StateError (List CellRecord)
  validate_files [] = ok []
  validate_files ((stem, r) ∷ files) =
      validate_cell_schema stem r >>= λ _. validate_files files >>= λ rest. ok (r ∷ rest)

abbrev pub image_schema_version : ℕ
image_schema_version = 1

-- `validate_image_schema`
unfoldable pub validate_image_schema : Option String → ImageRecord → Result StateError (Unit {0})
validate_image_schema stem r = do
  reject_if (r.schema_version != image_schema_version) unsupported_schema
  reject_if (stem != some r.id) identity_mismatch

-- `validate_unique_cell_job_ids_for_path`; `seen` holds the keys of the map.
abbrev pub insert_job :
    List Uuid
    → Option JobCorrelation
    → (List Uuid → Result StateError (Unit {0}))
    → Result StateError (Unit {0})
insert_job seen none rest = rest seen
insert_job seen (some job) rest =
    reject_if (contains seen job.job_id) job_correlation_integrity >>= λ _. rest (job.job_id ∷ seen)

unfoldable pub validate_unique_cell_job_ids :
    List Uuid → List CellRecord → Result StateError (Unit {0})
validate_unique_cell_job_ids seen [] = ok tt
validate_unique_cell_job_ids seen (cell ∷ cells) =
    insert_job seen cell.job (λ keys. validate_unique_cell_job_ids keys cells)

-- The list that `validate_unique_cell_job_id` checks for a record.
abbrev pub with_cell : CellRecord → List CellRecord → List CellRecord
with_cell r cells = filter (λ cell. cell.id != r.id) cells ++ (r ∷ [])
