-- ===== src/Guest/Saved.antt =====
-- What a save of a guest operation in src/state/mod.rs establishes, and when it succeeds.
use vm_cell_manager.Prelude.{
  ℕ, String, true, not, ◌≡◌, ◌≢◌, ◌↔◌, inl, inr, refl, sym, ap, Option, none, some, nat_eq,
  string_eq, option_eq, eq_of_not, not_of_eq, of_not, not_of, or_false, false_or, ok, err,
  bind-eq-ok, reject-eq-ok, reject-passes, reject_if-eq-ok, reject_if-passes, bind-passes,
  Result-cases, arith,
}
use vm_cell_manager.Host.{Uuid, Host}
use vm_cell_manager.Cell.{CellRecord}
use vm_cell_manager.Engine.Errors.{StateError}
use vm_cell_manager.Guest.{GuestOperationRecord}
use vm_cell_manager.Guest.Schema.{
  validate_guest_operation_schema, correlation_is_valid, version_is_known,
  validate_operation_job_binding,
}
use vm_cell_manager.Guest.Changes.{IsConsistent}
use vm_cell_manager.Guest.Run.{
  WriteOutcome, written, guard_refused, write_failed, unconfirmed, Durable, check_existing,
  check_write, write_checked, save_guest_operation,
}

pub version_is_read :
    (version : ℕ) (job_id : Option Uuid)
    → correlation_is_valid version job_id ≡ true
    → version_is_known version ≡ true
unfolding version_is_known correlation_is_valid
version_is_read version none h = ground arith
version_is_read version (some _) h = ground arith

-- What the schema says of a record in the file with the stem `stem`.
pub record IsStorable (host : Host) (stem : Option String) (r : GuestOperationRecord) : Type 0 where
  pub file : stem ≡ some (host.uuid_text r.id)
  pub correlation : correlation_is_valid r.schema_version r.job_id ≡ true
  pub consistent : IsConsistent r

-- The schema check of a guest operation succeeds exactly on the records that lie in their own
-- file, have a job exactly in the second schema version, and whose fields and times are valid for
-- their phase.
pub validate_guest_operation_schema_lem :
    (host : Host) (stem : Option String) (r : GuestOperationRecord)
    → (validate_guest_operation_schema host stem r ≡ ok tt) ↔ IsStorable host stem r
unfolding validate_guest_operation_schema IsConsistent
validate_guest_operation_schema_lem host stem r = (
  λ h.
      let (_, h1) = reject-eq-ok (not (version_is_known r.schema_version)) _ _ h in
      let (s, h2) = reject-eq-ok _ _ _ h1 in
      let (v, h3) = reject-eq-ok _ _ _ h2 in
      let (f, t) = or_false _ _ (reject_if-eq-ok _ _ h3) in
      record { file = eq_of_not _ _ s; correlation = of_not _ v; consistent = (of_not _ f, t) },
  λ w. reject-passes _ _ _ (not_of (version_is_read r.schema_version r.job_id w.correlation)) (
      reject-passes _ _ _ (not_of_eq w.file) (
        reject-passes _ _ _ (not_of w.correlation)
          (reject_if-passes _ _ (false_or (not_of w.consistent.0) w.consistent.1)))),
)

module _ (host : Host) (file_stem : Uuid → Option String) (cell : CellRecord) where
  -- A record that a save accepts.
  pub record Fits (r : GuestOperationRecord) : Type 0 where
    pub storable : IsStorable host (file_stem r.id) r
    pub binding : validate_operation_job_binding cell r ≡ ok tt

  -- What may be in the file before.
  unfoldable pub Precedes : Durable → GuestOperationRecord → Type 0
  Precedes none r = Unit {0}
  Precedes (some e) r = Fits e × (e.id ≡ r.id) × (e.job_id ≡ r.job_id)

  check_existing-Precedes :
      (d : Durable) (r : GuestOperationRecord)
      → Precedes d r
      → check_existing host file_stem cell r d ≡ ok tt
  unfolding check_existing Precedes
  check_existing-Precedes none r p = refl
  check_existing-Precedes (some e) r (f, i, j) =
      bind-passes _
        ((validate_guest_operation_schema_lem host _ e).1 (rw (ap file_stem i) at f.storable))
        (reject-passes _ _ _ (not_of_eq i)
          (bind-passes _ f.binding (reject_if-passes _ _ (not_of_eq j))))

  check_write-Fits :
      (d : Durable) (r : GuestOperationRecord)
      → Fits r
      → Precedes d r
      → check_write host file_stem cell r d ≡ ok tt
  unfolding check_write
  check_write-Fits d r f p =
      bind-passes _ ((validate_guest_operation_schema_lem host _ r).1 f.storable)
        (bind-passes _ (check_existing-Precedes d r p) f.binding)

  pub save-Fits :
      (d : Durable) (r : GuestOperationRecord)
      → Fits r
      → Precedes d r
      → save_guest_operation host file_stem cell written r d ≡ (some r, ok tt)
  unfolding save_guest_operation
  save-Fits d r f p =
      ap (λ m. write_checked host file_stem cell m written r d) (check_write-Fits d r f p)

  -- A write that fails before the file is replaced.
  pub save-fails :
      (e : StateError) (d : Durable) (r : GuestOperationRecord)
      → Fits r
      → Precedes d r
      → save_guest_operation host file_stem cell (write_failed e) r d ≡ (d, err e)
  unfolding save_guest_operation
  save-fails e d r f p =
      ap (λ m. write_checked host file_stem cell m (write_failed e) r d) (check_write-Fits d r f p)

  only_written :
      (outcome : WriteOutcome) (r : GuestOperationRecord) (d : Durable) {saved : Durable}
      → write_checked host file_stem cell (ok tt) outcome r d ≡ (saved, ok tt)
      → saved ≡ some r
  only_written written r d h = cc
  only_written (guard_refused _) r d h = cc
  only_written (write_failed _) r d h = cc
  only_written (unconfirmed _) r d h = cc

  never_written :
      (e : StateError) (outcome : WriteOutcome) (r : GuestOperationRecord) (d : Durable)
      {saved : Durable}
      → write_checked host file_stem cell (err e) outcome r d ≢ (saved, ok tt)
  never_written e written r d h = cc
  never_written e (guard_refused _) r d h = cc
  never_written e (write_failed _) r d h = cc
  never_written e (unconfirmed _) r d h = cc

  pub save-eq-ok :
      (outcome : WriteOutcome) (r : GuestOperationRecord) (d : Durable) {saved : Durable}
      → save_guest_operation host file_stem cell outcome r d ≡ (saved, ok tt)
      → (saved ≡ some r) × Fits r
  unfolding save_guest_operation check_write
  save-eq-ok outcome r d h = elim (Result-cases (check_write host file_stem cell r d)) [
    | inl (_, c) ↦
        let (_, s, c1) = bind-eq-ok (validate_guest_operation_schema host (file_stem r.id) r) _ c in
        let (_, _, b) = bind-eq-ok (check_existing host file_stem cell r d) _ c1 in
        (
          only_written outcome r d (rw c at h),
          record { storable = (validate_guest_operation_schema_lem host _ r).0 s; binding = b },
        )
    | inr (e, c) ↦ absurd (never_written e outcome r d (rw c at h))
  ]

-- A change that keeps a record's identity, its job and its schema.
pub record Keeps (r changed : GuestOperationRecord) : Type 0 where
  pub id : changed.id ≡ r.id
  pub job_id : changed.job_id ≡ r.job_id
  pub schema_version : changed.schema_version ≡ r.schema_version

same_binding :
    (cell : CellRecord) (r changed : GuestOperationRecord)
    → changed.job_id ≡ r.job_id
    → validate_operation_job_binding cell r ≡ ok tt
    → validate_operation_job_binding cell changed ≡ ok tt
unfolding validate_operation_job_binding
same_binding cell r changed e h = rw e h

module _ (host : Host) (file_stem : Uuid → Option String) (cell : CellRecord) where
  pub Keeps-Fits :
      (r changed : GuestOperationRecord)
      → Keeps r changed
      → Fits host file_stem cell r
      → IsConsistent changed
      → Fits host file_stem cell changed
  Keeps-Fits r changed k f c = record {
    storable = record {
      file = rw k.id f.storable.file;
      correlation = rw k.job_id (rw k.schema_version f.storable.correlation);
      consistent = c;
    };
    binding = same_binding cell r changed k.job_id f.binding;
  }

  pub Keeps-Precedes :
      (r changed : GuestOperationRecord)
      → Keeps r changed
      → Fits host file_stem cell r
      → Precedes host file_stem cell (some r) changed
  unfolding Precedes
  Keeps-Precedes r changed k f = (f, sym k.id, sym k.job_id)
