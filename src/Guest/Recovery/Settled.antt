-- ===== src/Guest/Recovery/Settled.antt =====
-- What `reconcile_guest_operation` of src/engine/mod.rs reports and leaves behind.
use vm_cell_manager.Prelude.{
  ℕ, suc, String, inl, inr, sym, eq_of_not, ok_inj, true, ◌≡◌, ◌!=◌, nat_eq, refl, ap, ◌∙◌, Option,
  none, some, Result, ok, err, bind-eq-ok, reject-eq-ok,
}
use vm_cell_manager.Host.{Uuid, Host}
use vm_cell_manager.Cell.{CellRecord}
use vm_cell_manager.Engine.Errors.{EngineError, StateError}
use vm_cell_manager.Guest.{
  GuestOperationRecord, GuestOperationPhase, intent_recorded, transport_active, artifact_committed,
  completed, failed, is_terminal,
}
use vm_cell_manager.Guest.Schema.{validate_guest_operation_schema}
use vm_cell_manager.Guest.Changes.{interrupt, finish_artifact}
use vm_cell_manager.Guest.Run.{Durable, save_guest_operation}
use vm_cell_manager.Guest.Saved.{save-eq-ok}
use vm_cell_manager.Guest.Recovery.{
  Disposition, interrupted_before_transport, artifact_completion_recovered, RecoveryReport,
  RecoveryEnv, report_of, parent_for_read, parent_for_write, load_guest_operation, load_with_parent,
  saved_report, check_artifact, recover_artifact, settle, settle_loaded, settle_locked, triage,
  triage_loaded, reconcile_guest_operation,
}
use vm_cell_manager.Guest.Recovery.Reported.{
  IsSettled, over_reported, review_reported, interrupt_reported, recover_reported,
}

abbrev Answer : Type 0
Answer = Durable × Result EngineError RecoveryReport

answered :
    {d d' : Durable} {a b : RecoveryReport} (x : Answer)
    → x ≡ (d, ok a)
    → x ≡ (d', ok b)
    → (d' ≡ d) × (b ≡ a)
answered x p q = (cc, cc)

completed_is_over : is_terminal completed ≡ true
unfolding is_terminal
completed_is_over = refl

failed_is_over : is_terminal failed ≡ true
unfolding is_terminal
failed_is_over = refl

module _ (host : Host) (file_stem : Uuid → Option String) (env : RecoveryEnv) (id : Uuid) where
  loaded :
      (n : ℕ) (d : Durable) (r : GuestOperationRecord)
      → load_guest_operation host file_stem env id n d ≡ ok r
      → (d ≡ some r) × (r.id ≡ id)
  unfolding load_guest_operation
  loaded n none r h = cc
  loaded n (some x) r h =
      let (_, _, h1) = bind-eq-ok (validate_guest_operation_schema host (file_stem id) x) _ h in
      let (i, h2) = reject-eq-ok (x.id != id) _ _ h1 in
      let (_, _, h3) = bind-eq-ok (parent_for_read (env.load_cell n x.cell_id) x) _ h2 in
      let same : x ≡ r = ok_inj h3 in
      (ap some same, sym (ap (λ y. y.id) same) ∙ eq_of_not x.id id i)

  loaded_parent :
      (n : ℕ) (d : Durable) (r : GuestOperationRecord) (cell : CellRecord)
      → load_with_parent host file_stem env id n d ≡ ok (r, cell)
      → (d ≡ some r) × (r.id ≡ id)
  unfolding load_with_parent
  loaded_parent n d r cell h =
      let (x, l, h1) = bind-eq-ok (load_guest_operation host file_stem env id n d) _ h in
      let (c, _, h2) = bind-eq-ok (parent_for_write (env.load_cell (suc n) x.cell_id) x) _ h1 in
      let q : x ≡ r = cc in rw q at (loaded n d x l)

  saved_once :
      (m : Durable × Result StateError (Unit {0})) (r : GuestOperationRecord)
      (disposition : Disposition) {d' : Durable} {report : RecoveryReport}
      → saved_report host file_stem env id m r disposition ≡ (d', ok report)
      → (m ≡ (d', ok tt)) × (report ≡ report_of r disposition true)
  saved_once (d, ok _) r disposition h = (cc, cc)
  saved_once (d, err e) r disposition h = cc

  -- A report after a save: the file holds what was saved.
  saved_reported :
      (cell : CellRecord) (r : GuestOperationRecord) (disposition : Disposition) (d : Durable)
      {d' : Durable} {report : RecoveryReport}
      → saved_report host file_stem env id
          (save_guest_operation host file_stem cell env.disk r d)
          r
          disposition
        ≡ (d', ok report)
      → (d' ≡ some r) × (report ≡ report_of r disposition true)
  saved_reported cell r disposition d h =
      let (s, q) =
        saved_once (save_guest_operation host file_stem cell env.disk r d) r disposition h in
      ((save-eq-ok host file_stem cell env.disk r d s).0, q)

  module _ (before locked : Durable) where
    recover-IsSettled :
        (checked : Result EngineError (Unit {0})) (cell : CellRecord) (r : GuestOperationRecord)
        {d' : Durable} {report : RecoveryReport}
        → locked ≡ some r
        → r.id ≡ id
        → r.phase ≡ artifact_committed
        → recover_artifact host file_stem env id checked cell r locked ≡ (d', ok report)
        → IsSettled id before locked d' report
    unfolding recover_artifact
    recover-IsSettled (err e) cell r l i e' h = cc
    recover-IsSettled (ok _) cell r l i e' h =
        let (p, q) =
          saved_reported cell (finish_artifact env.now r) artifact_completion_recovered locked h in
        recover_reported env.now r l i e' p q

    settle-IsSettled :
        (p : GuestOperationPhase) (cell : CellRecord) (r : GuestOperationRecord) {d' : Durable}
        {report : RecoveryReport}
        → locked ≡ some r
        → r.id ≡ id
        → r.phase ≡ p
        → settle host file_stem env id p cell r locked ≡ (d', ok report)
        → IsSettled id before locked d' report
    unfolding settle
    settle-IsSettled completed cell r l i e h =
        let (q, w) = answered _ refl h in
        over_reported r (inr q) (q ∙ l) i (rw e completed_is_over) w
    settle-IsSettled failed cell r l i e h =
        let (q, w) = answered _ refl h in over_reported r (inr q) (q ∙ l) i (rw e failed_is_over) w
    settle-IsSettled transport_active cell r l i e h =
        let (q, w) = answered _ refl h in review_reported r (inr q) (q ∙ l) i e w
    settle-IsSettled intent_recorded cell r l i e h =
        let (p, q) =
          saved_reported cell (interrupt env.now r) interrupted_before_transport locked h in
        interrupt_reported env.now r l i e p q
    settle-IsSettled artifact_committed cell r l i e h =
        recover-IsSettled (check_artifact host file_stem env id r) cell r l i e h

    loaded-IsSettled :
        (m : Result StateError (GuestOperationRecord × CellRecord)) {d' : Durable}
        {report : RecoveryReport}
        → ((r : GuestOperationRecord) (cell : CellRecord)
            → m ≡ ok (r, cell)
            → (locked ≡ some r) × (r.id ≡ id))
        → settle_loaded host file_stem env id m locked ≡ (d', ok report)
        → IsSettled id before locked d' report
    loaded-IsSettled (err e) l h = cc
    loaded-IsSettled (ok (r, cell)) l h =
        settle-IsSettled r.phase cell r (l r cell refl).0 (l r cell refl).1 refl h

    locked-IsSettled :
        (lock : Result StateError (Unit {0})) {d' : Durable} {report : RecoveryReport}
        → settle_locked host file_stem env id lock locked ≡ (d', ok report)
        → IsSettled id before locked d' report
    locked-IsSettled (err e) h = cc
    locked-IsSettled (ok _) h =
        loaded-IsSettled (load_with_parent host file_stem env id 2 locked) (loaded_parent 2 locked)
          h

    triage-IsSettled :
        (p : GuestOperationPhase) (r : GuestOperationRecord) {d' : Durable}
        {report : RecoveryReport}
        → before ≡ some r
        → r.id ≡ id
        → r.phase ≡ p
        → triage host file_stem env id p r before locked ≡ (d', ok report)
        → IsSettled id before locked d' report
    unfolding triage
    triage-IsSettled completed r l i e h =
        let (q, w) = answered _ refl h in
        over_reported r (inl q) (q ∙ l) i (rw e completed_is_over) w
    triage-IsSettled failed r l i e h =
        let (q, w) = answered _ refl h in over_reported r (inl q) (q ∙ l) i (rw e failed_is_over) w
    triage-IsSettled transport_active r l i e h =
        let (q, w) = answered _ refl h in review_reported r (inl q) (q ∙ l) i e w
    triage-IsSettled intent_recorded r l i e h = locked-IsSettled env.lock h
    triage-IsSettled artifact_committed r l i e h = locked-IsSettled env.lock h

    triage_loaded-IsSettled :
        (m : Result StateError (GuestOperationRecord × CellRecord)) {d' : Durable}
        {report : RecoveryReport}
        → ((r : GuestOperationRecord) (cell : CellRecord)
            → m ≡ ok (r, cell)
            → (before ≡ some r) × (r.id ≡ id))
        → triage_loaded host file_stem env id m before locked ≡ (d', ok report)
        → IsSettled id before locked d' report
    triage_loaded-IsSettled (err e) l h = cc
    triage_loaded-IsSettled (ok (r, cell)) l h =
        triage-IsSettled r.phase r (l r cell refl).0 (l r cell refl).1 refl h

    -- Whatever the file holds before and under the lock and whatever the platform answers: where
    -- `reconcile_guest_operation` reports, the file holds the reported operation, which has the
    -- id asked for. Without a change, the file is as it was before or under the lock, and the
    -- operation is over, or in transport and in need of recovery. With a change, the file under
    -- the lock held the same operation, as an intent that is now failed as interrupted, or with a
    -- committed artifact and now completed.
    pub reconcile-IsSettled :
        {d' : Durable} {report : RecoveryReport}
        → reconcile_guest_operation host file_stem env id before locked ≡ (d', ok report)
        → IsSettled id before locked d' report
    unfolding reconcile_guest_operation
    reconcile-IsSettled h =
        triage_loaded-IsSettled (load_with_parent host file_stem env id 0 before)
          (loaded_parent 0 before) h
