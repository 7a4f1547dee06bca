-- ===== src/Job/Bound.antt =====
-- What a context of src/core/job.rs binds: its correlation passes the checks of src/state/mod.rs,
-- and its result's times agree.
use vm_cell_manager.Prelude.{
  ◌≡◌, ◌≢◌, sym, ap, ℕ, ◌+◌, ◌-◌, ◌*◌, ◌≤◌, ◌<◌, String, false, not, nat_eq, nat-discrete, ◌==◌,
  ◌↔◌, some, ok, reject-eq-ok, reject-passes, reject_if-eq-ok, reject_if-passes, not_of_eq, not_of,
  ◌!=◌, true, refl, ◌∙◌, string_eq, option_eq, ok_inj, arith,
}
use vm_cell_manager.Host.{Uuid, Host}
use vm_cell_manager.Cell.{
  CellRecord, JobCorrelation, schema_version_for_job, ownership_marker_schema,
}
use vm_cell_manager.Store.{
  is_lowercase_sha256, validate_job_correlation, validate_cell_correlation, validate_cell_schema,
  cell_version_is_known,
}
use vm_cell_manager.Job.{
  JobRunContext, new_context, new_correlation, correlation, result_metadata, later,
}

abbrev bound : Uuid → String → ℕ → JobCorrelation
bound id digest started_at = record {
  job_id = id;
  job_spec_sha256 = digest;
  started_at = started_at;
}

-- `JobCorrelation::new` gives a correlation exactly where it is the one of its arguments and the
-- state store accepts it.
new_correlation_iff :
    (id : Uuid) (digest : String) (started_at : ℕ) (c : JobCorrelation)
    → (new_correlation id digest started_at ≡ ok c) ↔ (
        (bound id digest started_at ≡ c)
        × (validate_job_correlation (bound id digest started_at) ≡ ok tt))
unfolding new_correlation validate_job_correlation
new_correlation_iff id digest started_at c = (
  λ h.
      let (n, h1) = reject-eq-ok (id == 0) _ _ h in
      let (d, h2) = reject-eq-ok (not (is_lowercase_sha256 digest)) _ _ h1 in
      (ok_inj h2, reject-passes (id == 0) _ _ n (reject_if-passes _ _ d)),
  λ w.
      let (n, h1) = reject-eq-ok (id == 0) _ _ w.1 in
      let d = reject_if-eq-ok (not (is_lowercase_sha256 digest)) _ h1 in
      reject-passes (id == 0) _ _ n
        (reject-passes (not (is_lowercase_sha256 digest)) _ _ d (ap ok w.0)),
)

not_nil : (id : Uuid) → id ≢ 0 → (id == 0) ≡ false
not_nil id n = ground arith

made_version_is_known :
    (made : JobCorrelation) → cell_version_is_known (schema_version_for_job (some made)) ≡ true
unfolding cell_version_is_known schema_version_for_job nat-discrete
made_version_is_known made = refl

-- The store reads the correlation that it accepts, under the version for it.
accepted_correlation :
    (made : JobCorrelation)
    → validate_job_correlation made ≡ ok tt
    → validate_cell_correlation (schema_version_for_job (some made)) (some made) ≡ ok tt
unfolding validate_cell_correlation schema_version_for_job nat-discrete
accepted_correlation made v = v

module _ (host : Host) where
  accepted_record :
      (r : CellRecord) (made : JobCorrelation)
      → r.ownership.schema_version ≡ ownership_marker_schema
      → r.job ≡ some made
      → r.schema_version ≡ schema_version_for_job (some made)
      → validate_job_correlation made ≡ ok tt
      → validate_cell_schema host (some (host.uuid_text r.id)) r ≡ ok tt
  unfolding validate_cell_schema
  accepted_record r made marker job version v =
      reject-passes (not (cell_version_is_known r.schema_version)) _ _
        (not_of (rw version (made_version_is_known made)))
        (reject-passes (r.ownership.schema_version != ownership_marker_schema) _ _
          (not_of_eq marker)
          (reject-passes (some (host.uuid_text r.id) != some (host.uuid_text r.id)) _ _
            (not_of_eq {a = some (host.uuid_text r.id)} refl)
            (rw version (rw job (accepted_correlation made v)))))

  -- Where `JobRunContext::new` gives a context and the id drawn is not nil: `JobCorrelation::new`
  -- of the same id, digest and time gives the context's `correlation`, and the state store's
  -- schema check accepts, in its own file, every record of a cell with that job, the schema
  -- version that the engine picks for it and the marker's schema version.
  pub new_context-correlation :
      (drawn : Uuid) (digest : String) (started_at : ℕ) (c : JobRunContext) (r : CellRecord)
      → drawn ≢ 0
      → new_context drawn digest started_at ≡ ok c
      → r.ownership.schema_version ≡ ownership_marker_schema
      → r.job ≡ some (correlation c)
      → r.schema_version ≡ schema_version_for_job r.job
      → (new_correlation drawn digest started_at ≡ ok (correlation c))
        × (validate_cell_schema host (some (host.uuid_text r.id)) r ≡ ok tt)
  unfolding new_context correlation validate_job_correlation
  new_context-correlation drawn digest started_at c r n h marker job version =
      let (d, h1) = reject-eq-ok (not (is_lowercase_sha256 digest)) _ _ h in
      let e : bound drawn digest started_at ≡ correlation c = ap correlation (ok_inj h1) in
      let v : validate_job_correlation (bound drawn digest started_at) ≡ ok tt =
        reject-passes (drawn == 0) _ _ (not_nil drawn n) (reject_if-passes _ _ d) in
      let made : r.job ≡ some (bound drawn digest started_at) = job ∙ ap some (sym e) in
      (
        (new_correlation_iff drawn digest started_at (correlation c)).1 (e, v),
        accepted_record r (bound drawn digest started_at) marker made
            (version ∙ ap schema_version_for_job made) v,
      )

-- Whatever the clock reads at the end, the metadata of a result does not complete before it
-- starts, and its elapsed milliseconds are the whole milliseconds between the two.
pub result_metadata-IsTimed :
    (c : JobRunContext) (now : ℕ)
    → let m = result_metadata c now in
      (m.started_at ≤ m.completed_at)
      × (m.elapsed_milliseconds * 1000000 ≤ m.completed_at - m.started_at)
      × (m.completed_at - m.started_at < (m.elapsed_milliseconds + 1) * 1000000)
unfolding result_metadata
result_metadata-IsTimed c now = (later_start now c.started_at, omega arith, omega arith)
  where
    later_start : (a b : ℕ) → b ≤ later a b
    later_start a b = ground arith
