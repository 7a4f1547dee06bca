-- ===== src/Guest/Delivered.antt =====
-- What `run_guest_operation` of src/engine/mod.rs returns while every write succeeds.
pub mod Artifact
pub mod Masked
use vm_cell_manager.Prelude.{
  ℕ, String, Bool, true, false, ◌≡◌, ◌⊎◌, refl, sym, arith, ap, ◌∙◌, ◌≤◌, Option, none, some,
  is_some, eq_self, Result, ok, err, suc, nat_eq,
}
use vm_cell_manager.Host.{Uuid, Host}
use vm_cell_manager.Cell.{CellRecord}
use vm_cell_manager.Engine.Errors.{EngineError}
use vm_cell_manager.Guest.{
  GuestOperationRecord, GuestOperationKind, GuestOperationPhase, intent_with_job, intent_recorded,
  transport_active, GuestFailureClass, guest_operation_schema_version,
  job_correlated_guest_operation_schema_version, guest_failure_class, operation_schema_version,
}
use vm_cell_manager.Guest.Schema.{
  validate_operation_job_binding, makes_artifact, correlation_is_valid,
}
use vm_cell_manager.Guest.Changes.{
  GuestCompletion, activate, apply_completion, finish, fail_with, record_failure, IsConsistent,
  intent-IsConsistent, activate-IsConsistent, record_failure-IsConsistent, completed-IsConsistent,
}
use vm_cell_manager.Guest.Run.{
  RunEnv, written, Durable, on_saved, save_guest_operation, fail_run, commit_run, close_run,
  complete_run, end_run, start_run, run_recorded,
}
use vm_cell_manager.Guest.Saved.{Fits, Precedes, save-Fits, Keeps, Keeps-Fits, Keeps-Precedes}

-- A platform on which every write succeeds, no clock runs backwards, and `Path::file_stem` gives the
-- name that `format!("{id}.json")` was made from.
pub record IsCalm (host : Host) (file_stem : Uuid → Option String) (env : RunEnv) : Type 0 where
  pub stems : (id : Uuid) → file_stem id ≡ some (host.uuid_text id)
  pub writes : (n : ℕ) → env.disk n ≡ written
  pub clock : (n : ℕ) → env.clock n ≤ env.clock (suc n)

-- The same up to the write before the last.
pub record IsReady (host : Host) (file_stem : Uuid → Option String) (env : RunEnv) : Type 0 where
  pub stems : (id : Uuid) → file_stem id ≡ some (host.uuid_text id)
  pub writes : (n : ℕ) → n ≤ 2 → env.disk n ≡ written
  pub clock : (n : ℕ) → env.clock n ≤ env.clock (suc n)

pub IsCalm-IsReady :
    {host : Host} {file_stem : Uuid → Option String} {env : RunEnv}
    → IsCalm host file_stem env
    → IsReady host file_stem env
IsCalm-IsReady calm = record {
  stems = calm.stems;
  writes = λ n _. calm.writes n;
  clock = calm.clock;
}

-- What the actions of the engine complete with: output without an artifact, or the operation's own
-- artifact without output, for a kind that makes one.
pub CompletionFits : Uuid → GuestOperationKind → GuestCompletion → Type 0
CompletionFits id kind done =
    (done.artifact_id ≡ none)
    ⊎ ((done.artifact_id ≡ some id)
        × ((done.exit_code ≡ none) × (done.stdout_bytes ≡ none) × (done.stderr_bytes ≡ none))
        × (makes_artifact kind ≡ true))

module _ (host : Host) (file_stem : Uuid → Option String) (cell : CellRecord) (env : RunEnv)
    (ready : IsReady host file_stem env) where
  saved-Fits :
      {A : Type 0} (n : ℕ) (written_n : env.disk n ≡ written) (r : GuestOperationRecord)
      (d : Durable) (next : Durable → Durable × Result EngineError A)
      (fallback : EngineError → Durable → Durable × Result EngineError A)
      → Fits host file_stem cell r
      → Precedes host file_stem cell d r
      → on_saved (save_guest_operation host file_stem cell (env.disk n) r d) next fallback
        ≡ next (some r)
  saved-Fits n w r d next fallback f p =
      rw w (ap (λ m. on_saved m next fallback) (save-Fits host file_stem cell d r f p))

  module _ (id : Uuid) (kind : GuestOperationKind) (job_id : Option Uuid)
      (bound : validate_operation_job_binding cell
          (intent_with_job id cell.id kind (env.clock 0) job_id)
        ≡ ok tt) where
    abbrev intent_record : GuestOperationRecord
    intent_record = intent_with_job id cell.id kind (env.clock 0) job_id

    abbrev active_record : GuestOperationRecord
    active_record = activate (env.clock 1) intent_record

    correlation :
        (job : Option Uuid) → correlation_is_valid (operation_schema_version job) job ≡ true
    unfolding correlation_is_valid operation_schema_version
    correlation none = eq_self guest_operation_schema_version
    correlation (some _) = eq_self job_correlated_guest_operation_schema_version

    intent-Fits : Fits host file_stem cell intent_record
    unfolding intent_with_job
    intent-Fits = record {
      storable = record {
        file = ready.stems id;
        correlation = correlation job_id;
        consistent = intent-IsConsistent id cell.id kind (env.clock 0) job_id;
      };
      binding = bound;
    }

    intent_later : (n m : ℕ) → n ≤ m → (intent_with_job id cell.id kind n job_id).updated_at ≤ m
    unfolding intent_with_job
    intent_later n m l = l

    intent_phase : (n : ℕ) → (intent_with_job id cell.id kind n job_id).phase ≡ intent_recorded
    unfolding intent_with_job
    intent_phase n = refl

    activate_later :
        (n m : ℕ) → n ≤ m → IsConsistent (activate m (intent_with_job id cell.id kind n job_id))
    activate_later n m l =
        activate-IsConsistent m (intent_with_job id cell.id kind n job_id)
          (intent-IsConsistent id cell.id kind n job_id) (intent_later n m l) (intent_phase n)

    activate-Keeps : Keeps intent_record active_record
    unfolding activate
    activate-Keeps = record { id = refl; job_id = refl; schema_version = refl }

    active-Fits : Fits host file_stem cell active_record
    active-Fits =
        Keeps-Fits host file_stem cell intent_record active_record activate-Keeps intent-Fits
          (activate_later (env.clock 0) (env.clock 1) (ready.clock 0))

    active_later : active_record.updated_at ≤ env.clock 2
    unfolding activate
    active_later = ready.clock 1

    active_phase : active_record.phase ≡ transport_active
    unfolding activate
    active_phase = refl

    active_failure : active_record.failure ≡ none
    unfolding activate intent_with_job
    active_failure = refl

    fail-Keeps :
        (r : GuestOperationRecord) (f : GuestFailureClass × Bool) (now : ℕ)
        → Keeps r (fail_with f now r)
    fail-Keeps r (class, true) now = record { id = refl; job_id = refl; schema_version = refl }
    fail-Keeps r (class, false) now = record { id = refl; job_id = refl; schema_version = refl }

    run_recorded-intent :
        run_recorded host file_stem cell env id kind job_id
        ≡ start_run host file_stem cell env env.prepare intent_record (some intent_record)
    unfolding run_recorded Precedes
    run_recorded-intent =
        saved-Fits 0 (ready.writes 0 (omega arith)) intent_record none _ _ intent-Fits tt

    run_recorded-active :
        env.prepare ≡ ok tt
        → run_recorded host file_stem cell env id kind job_id
          ≡ end_run host file_stem cell env env.act active_record (some active_record)
    run_recorded-active p =
        run_recorded-intent
        ∙ ap (λ m. start_run host file_stem cell env m intent_record (some intent_record)) p
        ∙ saved-Fits 1 (ready.writes 1 (omega arith)) active_record (some intent_record) _ _
            active-Fits
            (Keeps-Precedes host file_stem cell intent_record active_record activate-Keeps
              intent-Fits)

    -- A change of the active record that is saved next.
    next_saved :
        {A : Type 0} (n : ℕ) (written_n : env.disk n ≡ written) (r changed : GuestOperationRecord)
        (next : Durable → Durable × Result EngineError A)
        (fallback : EngineError → Durable → Durable × Result EngineError A)
        → Keeps r changed
        → Fits host file_stem cell r
        → IsConsistent changed
        → on_saved
            (save_guest_operation host file_stem cell (env.disk n) changed (some r))
            next
            fallback
          ≡ next (some changed)
    next_saved n w r changed next fallback k f c =
        saved-Fits n w changed (some r) next fallback
          (Keeps-Fits host file_stem cell r changed k f c)
          (Keeps-Precedes host file_stem cell r changed k f)

    complete-Keeps :
        (done : GuestCompletion) (now : ℕ) (r : GuestOperationRecord)
        → Keeps r (apply_completion done now r)
    unfolding apply_completion
    complete-Keeps done now r = record { id = refl; job_id = refl; schema_version = refl }

    close-Keeps :
        (done : GuestCompletion) (now : ℕ) (r : GuestOperationRecord)
        → Keeps r (finish (apply_completion done now r))
    unfolding apply_completion finish
    close-Keeps done now r = record { id = refl; job_id = refl; schema_version = refl }

    complete-closes :
        (r : GuestOperationRecord) (done : GuestCompletion) (d : Durable)
        → is_some done.artifact_id ≡ false
        → complete_run host file_stem cell env r done d
          ≡ close_run host file_stem cell env (apply_completion done (env.clock 2) r) done d
    unfolding complete_run
    complete-closes r done d n = rw n refl

    complete-commits :
        (r : GuestOperationRecord) (done : GuestCompletion) (d : Durable)
        → is_some done.artifact_id ≡ true
        → complete_run host file_stem cell env r done d
          ≡ commit_run host file_stem cell env (apply_completion done (env.clock 2) r) done d
    unfolding complete_run
    complete-commits r done d n = rw n refl

-- A final failure ends the operation; another leaves it in transport.
pub Ended : (final : Bool) → ℕ → GuestOperationRecord → Type 0
Ended true now r = (r.phase ≡ GuestOperationPhase.failed) × (r.completed_at ≡ some now)
Ended false now r = (r.phase ≡ transport_active) × (r.completed_at ≡ none)

-- What the file keeps of a failure: its class, when it was, and the end if the failure is final.
pub record IsFailed (id cell_id : Uuid) (kind : GuestOperationKind) (e : EngineError) (now : ℕ)
    (r : GuestOperationRecord) : Type 0 where
  pub same : (r.id ≡ id) × (r.cell_id ≡ cell_id) × (r.kind ≡ kind)
  pub class : r.failure ≡ some (guest_failure_class e).0
  pub updated : r.updated_at ≡ now
  pub ended : Ended (guest_failure_class e).1 now r

module _ (host : Host) (file_stem : Uuid → Option String) (cell : CellRecord) (env : RunEnv)
    (calm : IsCalm host file_stem env) (id : Uuid) (kind : GuestOperationKind)
    (job_id : Option Uuid)
    (bound : validate_operation_job_binding cell
        (intent_with_job id cell.id kind (env.clock 0) job_id)
      ≡ ok tt) where
  abbrev active : GuestOperationRecord
  active = activate (env.clock 1) (intent_with_job id cell.id kind (env.clock 0) job_id)

  active-IsFailed :
      (e : EngineError) (f : GuestFailureClass × Bool)
      → guest_failure_class e ≡ f
      → IsFailed id cell.id kind e (env.clock 2) (fail_with f (env.clock 2) active)
  unfolding activate intent_with_job Ended
  active-IsFailed e (class, true) p = record {
    same = (refl, refl, refl);
    class = ap (λ f. some f.0) (sym p);
    updated = refl;
    ended = rw p (refl, refl);
  }
  active-IsFailed e (class, false) p = record {
    same = (refl, refl, refl);
    class = ap (λ f. some f.0) (sym p);
    updated = refl;
    ended = rw p (refl, refl);
  }

  -- Where every write succeeds, the clock does not run backwards, files are named by their ids,
  -- the job binds to the cell and the pinning succeeds: an error of the transport is returned as
  -- it is, and the file holds the operation with the error's class and the time; if the class is
  -- final the operation is failed and completed at that time, otherwise it is still in transport
  -- and not completed.
  pub run_recorded-err :
      (e : EngineError)
      → env.prepare ≡ ok tt
      → env.act ≡ err e
      → (r : GuestOperationRecord) × (run_recorded host file_stem cell env id kind job_id
          ≡ (some r, err e))
        × IsFailed id cell.id kind e (env.clock 2) r
  unfolding fail_run record_failure
  run_recorded-err e p a =
      let ready = IsCalm-IsReady calm in
      let fits = active-Fits host file_stem cell env ready id kind job_id bound in
      let failed_record = fail_with (guest_failure_class e) (env.clock 2) active in
      (
        failed_record,
        run_recorded-active host file_stem cell env ready id kind job_id bound p
            ∙ ap (λ m. end_run host file_stem cell env m active (some active)) a
            ∙ next_saved host file_stem cell env ready id kind job_id bound 3 (calm.writes 3) active
                failed_record _ _
                (fail-Keeps host file_stem cell env ready id kind job_id bound active
                  (guest_failure_class e) (env.clock 2))
                fits
                (record_failure-IsConsistent (env.clock 2) active fits.storable.consistent
                  (active_later host file_stem cell env ready id kind job_id bound) e
                  (active_phase host file_stem cell env ready id kind job_id bound)),
        active-IsFailed e (guest_failure_class e) refl,
      )

  -- Under the same conditions, a completion without an artifact is returned, and the file holds
  -- the completed record.
  pub run_recorded-output :
      (done : GuestCompletion)
      → env.prepare ≡ ok tt
      → env.act ≡ ok done
      → done.artifact_id ≡ none
      → run_recorded host file_stem cell env id kind job_id
        ≡ (some (finish (apply_completion done (env.clock 2) active)), ok done)
  unfolding close_run
  run_recorded-output done p a n =
      let ready = IsCalm-IsReady calm in
      let fits = active-Fits host file_stem cell env ready id kind job_id bound in
      run_recorded-active host file_stem cell env ready id kind job_id bound p
      ∙ ap (λ m. end_run host file_stem cell env m active (some active)) a
      ∙ complete-closes host file_stem cell env ready id kind job_id bound active done (some active)
          (ap is_some n)
      ∙ next_saved host file_stem cell env ready id kind job_id bound 2 (calm.writes 2) active
          (finish (apply_completion done (env.clock 2) active)) _ _
          (close-Keeps host file_stem cell env ready id kind job_id bound done (env.clock 2) active)
          fits
          (completed-IsConsistent (env.clock 2) active fits.storable.consistent
            (active_later host file_stem cell env ready id kind job_id bound) done
            (active_phase host file_stem cell env ready id kind job_id bound)
            (active_failure host file_stem cell env ready id kind job_id bound) n)
