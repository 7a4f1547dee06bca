-- ===== src/Guest/Outcome.antt =====
-- What `run_guest_operation` of src/engine/mod.rs returns and leaves behind.
use vm_cell_manager.Prelude.{
  ℕ, String, false, ◌≡◌, ◌≢◌, inl, inr, refl, sym, ap, Option, none, some, nat_eq, option_eq,
  is_some, Bool-cases, Result, ok, err,
}
use vm_cell_manager.Host.{Uuid, Host}
use vm_cell_manager.Cell.{CellRecord}
use vm_cell_manager.Engine.Errors.{EngineError, StateError, state}
use vm_cell_manager.Guest.{GuestOperationRecord, GuestOperationKind, completed, intent_with_job}
use vm_cell_manager.Guest.Changes.{
  GuestCompletion, activate, apply_completion, finish_artifact, finish, record_failure,
}
use vm_cell_manager.Guest.Run.{
  RunEnv, Durable, on_saved, give_up, save_guest_operation, fail_run, commit_run, close_run,
  complete_run, end_run, start_run, run_recorded,
}
use vm_cell_manager.Guest.Saved.{Fits, save-eq-ok}

saved-ok :
    {A : Type 0} (m : Durable × Result StateError (Unit {0}))
    (next : Durable → Durable × Result EngineError A) {d : Durable} {v : A}
    → on_saved m next give_up ≡ (d, ok v)
    → (saved : Durable) × (m ≡ (saved, ok tt)) × (next saved ≡ (d, ok v))
saved-ok (saved, ok _) next h = (saved, refl, h)
saved-ok (saved, err e) next h = cc

no_value :
    {A : Type 0} (m : Durable × Result StateError (Unit {0})) (e : EngineError) {d : Durable}
    {v : A}
    → on_saved m (λ saved. (saved, err e)) give_up ≢ (d, ok v)
no_value (saved, ok _) e h = cc
no_value (saved, err _) e h = cc

module _ (host : Host) (file_stem : Uuid → Option String) (cell : CellRecord) (env : RunEnv) where
  -- The record that a run which returned a value left in the file.
  pub record IsDone (id : Uuid) (d : Durable) : Type 0 where
    pub final : GuestOperationRecord
    pub stored : d ≡ some final
    pub own : final.id ≡ id
    pub is_completed : final.phase ≡ completed
    pub fits : Fits host file_stem cell final

  fail_run-not-ok :
      (r : GuestOperationRecord) (e : EngineError) (d : Durable) {d' : Durable}
      {v : GuestCompletion}
      → fail_run host file_stem cell env r e d ≢ (d', ok v)
  unfolding fail_run
  fail_run-not-ok r e d h =
      no_value
        (save_guest_operation host file_stem cell (env.disk 3) (record_failure e (env.clock 2) r) d)
        e h

  commit_run-IsDone :
      (r : GuestOperationRecord) (done : GuestCompletion) (d : Durable) {d' : Durable}
      {v : GuestCompletion}
      → commit_run host file_stem cell env r done d ≡ (d', ok v)
      → IsDone r.id d' × (v ≡ done)
  unfolding commit_run finish_artifact
  commit_run-IsDone r done d h =
      let (_, _, h1) = saved-ok (save_guest_operation host file_stem cell (env.disk 2) r d) _ h in
      let (_, s, h2) =
        saved-ok
          (save_guest_operation host file_stem cell (env.disk 3) (finish_artifact (env.clock 3) r)
            _)
          _ h1 in
      let (q, f) = save-eq-ok host file_stem cell _ _ _ s in
      (
        record {
          final = finish_artifact (env.clock 3) r;
          stored = cc;
          own = refl;
          is_completed = refl;
          fits = f;
        },
        cc,
      )

  close_run-IsDone :
      (r : GuestOperationRecord) (done : GuestCompletion) (d : Durable) {d' : Durable}
      {v : GuestCompletion}
      → r.phase ≡ completed
      → close_run host file_stem cell env r done d ≡ (d', ok v)
      → IsDone r.id d' × (v ≡ done)
  unfolding close_run finish
  close_run-IsDone r done d p h =
      let (_, s, h2) =
        saved-ok (save_guest_operation host file_stem cell (env.disk 2) (finish r) d) _ h in
      let (q, f) = save-eq-ok host file_stem cell _ _ _ s in
      (record { final = finish r; stored = cc; own = refl; is_completed = p; fits = f }, cc)

  completion_phase :
      (done : GuestCompletion) (now : ℕ) (r : GuestOperationRecord)
      → is_some done.artifact_id ≡ false
      → (apply_completion done now r).phase ≡ completed
  unfolding apply_completion
  completion_phase done now r p = rw p refl

  completion_id :
      (done : GuestCompletion) (now : ℕ) (r : GuestOperationRecord)
      → (apply_completion done now r).id ≡ r.id
  unfolding apply_completion
  completion_id done now r = refl

  complete_run-IsDone :
      (r : GuestOperationRecord) (done : GuestCompletion) (d : Durable) {d' : Durable}
      {v : GuestCompletion}
      → complete_run host file_stem cell env r done d ≡ (d', ok v)
      → IsDone r.id d' × (v ≡ done)
  unfolding complete_run
  complete_run-IsDone r done d h =
      rw (sym (completion_id done (env.clock 2) r)) (elim (Bool-cases (is_some done.artifact_id)) [
        | inl p ↦ commit_run-IsDone (apply_completion done (env.clock 2) r) done d (rw p at h)
        | inr p ↦
            close_run-IsDone (apply_completion done (env.clock 2) r) done d
              (completion_phase done (env.clock 2) r p) (rw p at h)
      ])

  end_run-IsDone :
      (act : Result EngineError GuestCompletion) (r : GuestOperationRecord) (d : Durable)
      {d' : Durable} {v : GuestCompletion}
      → end_run host file_stem cell env act r d ≡ (d', ok v)
      → IsDone r.id d' × (act ≡ ok v)
  end_run-IsDone (err e) r d h = absurd (fail_run-not-ok r e d h)
  end_run-IsDone (ok done) r d h = let (i, e) = complete_run-IsDone r done d h in (i, ap ok (sym e))

  saved_active :
      (m : Durable × Result StateError (Unit {0})) (r : GuestOperationRecord) {d' : Durable}
      {v : GuestCompletion}
      → on_saved m
          (λ saved. end_run host file_stem cell env env.act r saved)
          (λ e failed. fail_run host file_stem cell env r e failed)
        ≡ (d', ok v)
      → IsDone r.id d' × (env.act ≡ ok v)
  saved_active (saved, ok _) r h = end_run-IsDone env.act r saved h
  saved_active (saved, err e) r h = absurd (fail_run-not-ok r (state e) saved h)

  start_run-IsDone :
      (prepare : Result EngineError (Unit {0})) (r : GuestOperationRecord) (d : Durable)
      {d' : Durable} {v : GuestCompletion}
      → start_run host file_stem cell env prepare r d ≡ (d', ok v)
      → IsDone r.id d' × (env.act ≡ ok v) × (prepare ≡ ok tt)
  unfolding activate
  start_run-IsDone (err e) r d h = absurd (fail_run-not-ok r e d h)
  start_run-IsDone (ok _) r d h =
      let (i, a) =
        saved_active
          (save_guest_operation host file_stem cell (env.disk 1) (activate (env.clock 1) r) d)
          (activate (env.clock 1) r) h in
      (i, a, refl)

  -- Whatever the writes, the clock and the transport do: a guest operation that returns a value
  -- returns the transport's, after the installation and the runtime were pinned, and leaves in
  -- its file a record with its id, completed, which the schema accepts and whose job is its
  -- cell's if it has one.
  pub run_recorded-IsDone :
      (id : Uuid) (kind : GuestOperationKind) (job_id : Option Uuid) {d : Durable}
      {v : GuestCompletion}
      → run_recorded host file_stem cell env id kind job_id ≡ (d, ok v)
      → IsDone id d × (env.act ≡ ok v) × (env.prepare ≡ ok tt)
  unfolding run_recorded intent_with_job
  run_recorded-IsDone id kind job_id h =
      let (saved, _, h1) =
        saved-ok
          (save_guest_operation host file_stem cell (env.disk 0)
            (intent_with_job id cell.id kind (env.clock 0) job_id) none)
          _ h in
      start_run-IsDone env.prepare _ saved h1
