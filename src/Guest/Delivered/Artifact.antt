-- ===== src/Guest/Delivered/Artifact.antt =====
-- `run_guest_operation` of src/engine/mod.rs for an action that collects an artifact, while every
-- write succeeds.
use vm_cell_manager.Prelude.{
  ℕ, String, true, false, ◌≡◌, ◌≤◌, refl, sym, ap, ◌∙◌, Option, none, some, is_some, ok, err, arith,
  nat_eq, nat-discrete, ◌==◌, if◌then◌else◌,
}
use vm_cell_manager.Host.{Uuid, Host}
use vm_cell_manager.Cell.{CellRecord}
use vm_cell_manager.Engine.Errors.{StateError, state}
use vm_cell_manager.Guest.{
  GuestOperationRecord, GuestOperationKind, artifact_committed, completed, intent_with_job,
}
use vm_cell_manager.Guest.Schema.{validate_operation_job_binding, makes_artifact}
use vm_cell_manager.Guest.Changes.{
  GuestCompletion, activate, apply_completion, finish_artifact, committed-IsConsistent,
  finish_artifact-IsConsistent,
}
use vm_cell_manager.Guest.Run.{
  RunEnv, WriteOutcome, write_failed, on_saved, give_up, save_guest_operation, commit_run, end_run,
  run_recorded,
}
use vm_cell_manager.Guest.Saved.{
  Keeps, Keeps-Fits, Keeps-Precedes, Fits, Precedes, save-Fits, save-fails,
}
use vm_cell_manager.Guest.Delivered.{
  IsCalm, IsReady, IsCalm-IsReady, active-Fits, active_later, active_phase, active_failure,
  complete-Keeps, complete-commits, next_saved, run_recorded-active,
}

finish-Keeps : (now : ℕ) (r : GuestOperationRecord) → Keeps r (finish_artifact now r)
unfolding finish_artifact
finish-Keeps now r = record { id = refl; job_id = refl; schema_version = refl }

committed_phase :
    (done : GuestCompletion) (now : ℕ) (r : GuestOperationRecord)
    → is_some done.artifact_id ≡ true
    → (apply_completion done now r).phase ≡ artifact_committed
unfolding apply_completion
committed_phase done now r p = rw p refl

committed_later :
    (done : GuestCompletion) (n m : ℕ) (r : GuestOperationRecord)
    → n ≤ m
    → (apply_completion done n r).updated_at ≤ m
unfolding apply_completion
committed_later done n m r l = l

-- The writes, with a failure of the one after the third.
abbrev pub stop_before_last : StateError → (ℕ → WriteOutcome) → ℕ → WriteOutcome
stop_before_last e disk n = if n == 3 then write_failed e else disk n

not_last : (n : ℕ) → n ≤ 2 → (n == 3) ≡ false
not_last n l = ground arith

module _ (host : Host) (file_stem : Uuid → Option String) (cell : CellRecord) (id : Uuid)
    (kind : GuestOperationKind) (job_id : Option Uuid) where
  module _ (env : RunEnv) where
    abbrev active : GuestOperationRecord
    active = activate (env.clock 1) (intent_with_job id cell.id kind (env.clock 0) job_id)

    abbrev committed : GuestCompletion → GuestOperationRecord
    committed done = apply_completion done (env.clock 2) active

    abbrev finished : GuestCompletion → GuestOperationRecord
    finished done = finish_artifact (env.clock 3) (committed done)

    active_id : active.id ≡ id
    unfolding activate intent_with_job
    active_id = refl

    active_kind : active.kind ≡ kind
    unfolding activate intent_with_job
    active_kind = refl

    module _ (ready : IsReady host file_stem env)
        (bound : validate_operation_job_binding cell
            (intent_with_job id cell.id kind (env.clock 0) job_id)
          ≡ ok tt)
        (done : GuestCompletion) (p : env.prepare ≡ ok tt) (a : env.act ≡ ok done)
        (n : done.artifact_id ≡ some id)
        (o : (done.exit_code ≡ none) × (done.stdout_bytes ≡ none) × (done.stderr_bytes ≡ none))
        (k : makes_artifact kind ≡ true) where
      committed-Fits : Fits host file_stem cell (committed done)
      committed-Fits =
          let fits = active-Fits host file_stem cell env ready id kind job_id bound in
          Keeps-Fits host file_stem cell active (committed done)
            (complete-Keeps host file_stem cell env ready id kind job_id bound done (env.clock 2)
              active)
            fits
            (committed-IsConsistent (env.clock 2) active fits.storable.consistent
              (active_later host file_stem cell env ready id kind job_id bound) done
              (active_phase host file_stem cell env ready id kind job_id bound)
              (active_failure host file_stem cell env ready id kind job_id bound)
              (n ∙ ap some (sym active_id)) o (ap makes_artifact active_kind ∙ k))

      finished-Fits : Fits host file_stem cell (finished done)
      finished-Fits =
          Keeps-Fits host file_stem cell (committed done) (finished done)
            (finish-Keeps (env.clock 3) (committed done)) committed-Fits
            (finish_artifact-IsConsistent (env.clock 3) (committed done)
              committed-Fits.storable.consistent
              (committed_later done (env.clock 2) (env.clock 3) active (ready.clock 2))
              (committed_phase done (env.clock 2) active (ap is_some n)))

      finished-Precedes : Precedes host file_stem cell (some (committed done)) (finished done)
      finished-Precedes =
          Keeps-Precedes host file_stem cell (committed done) (finished done)
            (finish-Keeps (env.clock 3) (committed done)) committed-Fits

      -- Up to the last write.
      run_recorded-committed :
          run_recorded host file_stem cell env id kind job_id
          ≡ on_saved
              (save_guest_operation host file_stem cell
                (env.disk 3)
                (finished done)
                (some (committed done)))
              (λ saved. (saved, ok done))
              give_up
      unfolding commit_run
      run_recorded-committed =
          run_recorded-active host file_stem cell env ready id kind job_id bound p
          ∙ ap (λ m. end_run host file_stem cell env m active (some active)) a
          ∙ complete-commits host file_stem cell env ready id kind job_id bound active done
              (some active) (ap is_some n)
          ∙ next_saved host file_stem cell env ready id kind job_id bound 2
              (ready.writes 2 (omega arith)) active (committed done) _ _
              (complete-Keeps host file_stem cell env ready id kind job_id bound done (env.clock 2)
                active)
              (active-Fits host file_stem cell env ready id kind job_id bound)
              committed-Fits.storable.consistent

  module _ (env : RunEnv) (calm : IsCalm host file_stem env)
      (bound : validate_operation_job_binding cell
          (intent_with_job id cell.id kind (env.clock 0) job_id)
        ≡ ok tt) where
    stop_before_last-IsReady :
        (e : StateError)
        → IsReady host file_stem (record env { disk = stop_before_last e env.disk })
    stop_before_last-IsReady e = record {
      stems = calm.stems;
      writes = λ n l. rw (not_last n l) (calm.writes n);
      clock = calm.clock;
    }

    -- Where every write succeeds, the clock does not run backwards, files are named by their ids,
    -- the job binds to the cell, the pinning succeeds and the kind makes artifacts: a completion
    -- with the operation's own artifact and no output is returned, and the file holds the
    -- completed record. If only the last write fails, before it replaces the file, its error is
    -- returned and the file holds the same record in the phase of a committed artifact.
    pub run_recorded-artifact :
        (done : GuestCompletion) (e : StateError)
        → env.prepare ≡ ok tt
        → env.act ≡ ok done
        → done.artifact_id ≡ some id
        → (done.exit_code ≡ none) × (done.stdout_bytes ≡ none) × (done.stderr_bytes ≡ none)
        → makes_artifact kind ≡ true
        → (run_recorded host file_stem cell env id kind job_id
            ≡ (some (finished env done), ok done))
          × (run_recorded host file_stem cell
                (record env { disk = stop_before_last e env.disk })
                id
                kind
                job_id
              ≡ (some (committed env done), err (state e)))
          × ((committed env done).phase ≡ artifact_committed)
          × ((finished env done).phase ≡ completed)
    unfolding finish_artifact apply_completion save_guest_operation nat-discrete
    run_recorded-artifact done e p a n o k =
        let ready = IsCalm-IsReady calm in
        let fits = finished-Fits env ready bound done p a n o k in
        let precedes = finished-Precedes env ready bound done p a n o k in
        (
          run_recorded-committed env ready bound done p a n o k
              ∙ rw (calm.writes 3) (
                  ap (λ m. on_saved m (λ saved. (saved, ok done)) give_up)
                    (save-Fits host file_stem cell (some (committed env done)) (finished env done)
                      fits precedes)),
          run_recorded-committed (record env { disk = stop_before_last e env.disk })
                (stop_before_last-IsReady e) bound done p a n o k
              ∙ ap (λ m. on_saved m (λ saved. (saved, ok done)) give_up)
                  (save-fails host file_stem cell e (some (committed env done)) (finished env done)
                    fits precedes),
          committed_phase done (env.clock 2) (active env) (ap is_some n),
          refl,
        )
