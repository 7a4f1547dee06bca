-- ===== src/Guest/Delivered/Masked.antt =====
-- The error path of `run_guest_operation` of src/engine/mod.rs before the transport is reached.
use vm_cell_manager.Prelude.{
  ℕ, String, Bool, true, false, not, ◌≡◌, refl, ap, ◌∙◌, Option, some, string_eq, option_eq,
  not_of_eq, not_of, ok, err, reject-skips,
}
use vm_cell_manager.Host.{Uuid, Host}
use vm_cell_manager.Cell.{CellRecord}
use vm_cell_manager.Engine.Errors.{EngineError, state, guest_operation_integrity}
use vm_cell_manager.Guest.{
  GuestOperationRecord, GuestOperationKind, intent_with_job, GuestFailureClass, guest_failure_class,
}
use vm_cell_manager.Guest.Schema.{
  validate_guest_operation_schema, validate_operation_job_binding, fields_are_valid,
  correlation_is_valid, version_is_known,
}
use vm_cell_manager.Guest.Changes.{fail_with, record_failure}
use vm_cell_manager.Guest.Run.{
  RunEnv, written, Durable, on_saved, give_up, check_write, save_guest_operation, fail_run,
  start_run, run_recorded,
}
use vm_cell_manager.Guest.Saved.{version_is_read}
use vm_cell_manager.Guest.Delivered.{
  IsCalm, IsCalm-IsReady, intent-Fits, fail-Keeps, run_recorded-intent,
}

module _ (host : Host) where
  inconsistent-refused :
      (stem : Option String) (r : GuestOperationRecord)
      → stem ≡ some (host.uuid_text r.id)
      → correlation_is_valid r.schema_version r.job_id ≡ true
      → fields_are_valid r ≡ false
      → validate_guest_operation_schema host stem r ≡ err guest_operation_integrity
  unfolding validate_guest_operation_schema
  inconsistent-refused stem r s v f =
      reject-skips (not (version_is_known r.schema_version)) _ _
        (not_of (version_is_read r.schema_version r.job_id v))
      ∙ reject-skips _ _ _ (not_of_eq s)
      ∙ reject-skips _ _ _ (not_of v)
      ∙ rw f refl

  refused-save :
      (file_stem : Uuid → Option String) (cell : CellRecord) (r : GuestOperationRecord)
      (d : Durable)
      → validate_guest_operation_schema host (file_stem r.id) r ≡ err guest_operation_integrity
      → save_guest_operation host file_stem cell written r d ≡ (d, err guest_operation_integrity)
  unfolding save_guest_operation check_write
  refused-save file_stem cell r d h = rw h refl

unfinished_failure :
    (id cell_id : Uuid) (kind : GuestOperationKind) (then_ now : ℕ) (job_id : Option Uuid)
    (f : GuestFailureClass × Bool)
    → f.1 ≡ false
    → fields_are_valid (fail_with f now (intent_with_job id cell_id kind then_ job_id)) ≡ false
unfolding fields_are_valid intent_with_job
unfinished_failure id cell_id kind then_ now job_id (class, true) h = cc
unfinished_failure id cell_id kind then_ now job_id (class, false) h = refl

module _ (host : Host) (file_stem : Uuid → Option String) (cell : CellRecord) (env : RunEnv)
    (calm : IsCalm host file_stem env) (id : Uuid) (kind : GuestOperationKind)
    (job_id : Option Uuid)
    (bound : validate_operation_job_binding cell
        (intent_with_job id cell.id kind (env.clock 0) job_id)
      ≡ ok tt) where
  abbrev unfinished : EngineError → GuestOperationRecord
  unfinished e =
      fail_with (guest_failure_class e) (env.clock 2)
        (intent_with_job id cell.id kind (env.clock 0) job_id)

  unfinished-refused :
      (e : EngineError)
      → (guest_failure_class e).1 ≡ false
      → validate_guest_operation_schema host (file_stem (unfinished e).id) (unfinished e)
        ≡ err guest_operation_integrity
  unfinished-refused e n =
      let k =
        fail-Keeps host file_stem cell env (IsCalm-IsReady calm) id kind job_id bound
          (intent_with_job id cell.id kind (env.clock 0) job_id) (guest_failure_class e)
          (env.clock 2) in
      let f = intent-Fits host file_stem cell env (IsCalm-IsReady calm) id kind job_id bound in
      inconsistent-refused host _ (unfinished e) (calm.stems (unfinished e).id)
        (rw k.job_id (rw k.schema_version f.storable.correlation))
        (unfinished_failure id cell.id kind (env.clock 0) (env.clock 2) job_id
          (guest_failure_class e) n)

  -- Where every write succeeds, the clock does not run backwards, files are named by their ids
  -- and the job binds to the cell: if the pinning of the installation or of the runtime fails
  -- with an error whose class is not final, the caller gets an integrity error of the state store
  -- in its place, and the file still holds the intent.
  pub run_recorded-masked :
      (e : EngineError)
      → env.prepare ≡ err e
      → (guest_failure_class e).1 ≡ false
      → run_recorded host file_stem cell env id kind job_id ≡ (
        some (intent_with_job id cell.id kind (env.clock 0) job_id),
        err (state guest_operation_integrity),
      )
  unfolding fail_run record_failure
  run_recorded-masked e p n =
      run_recorded-intent host file_stem cell env (IsCalm-IsReady calm) id kind job_id bound
      ∙ ap
          (λ m.
            start_run host file_stem cell env m
              (intent_with_job id cell.id kind (env.clock 0) job_id)
              (some (intent_with_job id cell.id kind (env.clock 0) job_id)))
          p
      ∙ rw (calm.writes 3) (
          ap (λ m. on_saved m (λ saved. (saved, err e)) give_up)
            (refused-save host file_stem cell (unfinished e) _ (unfinished-refused e n)))
