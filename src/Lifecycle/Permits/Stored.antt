-- ===== src/Lifecycle/Permits/Stored.antt =====
-- The loads and saves of src/state/mod.rs within a lifecycle method: they change nothing but what is
-- known of the stored record.
use vm_cell_manager.Prelude.{
  ◌≡◌, refl, String, Option, some, ◌!=◌, nat_eq, Result, none, ok, err, reject_if, reject_if-eq-ok,
  eq_of_not, map_err, ◌∷◌,
}
use vm_cell_manager.Host.{Uuid, Host}
use vm_cell_manager.Cell.{CellId, CellRecord}
use vm_cell_manager.Engine.Errors.{EngineError, state, identity_mismatch}
use vm_cell_manager.Program.{
  Program, ◌>>=◌, lift, pure, perform, catch, Reply, read_cell, read_cells, write_cell,
  validate_root,
}
use vm_cell_manager.Program.Logic.{
  History, After, Holds, finished, called, Then, bind-Holds, weaken-Holds, lift-Holds,
  perform-Holds, catch-Holds, Caught,
}
use vm_cell_manager.Store.{redact_cell_diagnostic, validate_cell_schema, validate_files}
use vm_cell_manager.Store.Files.{
  check_existing_job, load_cell, save_cell, save_redacted, validate_unique_cell_job_id,
}
use vm_cell_manager.Lifecycle.Known.{Known, known}
use vm_cell_manager.Lifecycle.Permits.{Permits, Lawful}

module _ (host : Host) (file_stem : Uuid → Option String) (name root : String) where
  -- Nothing changes but what is known of the stored record.
  abbrev pub Stale : History → Known → Type 0
  Stale h k = (d : Option CellRecord) × (k ≡ record (known h) { durable = d })

  abbrev Same : {A : Type 0} → History → After A
  Same h h' _ = known h' ≡ known h

  unique_lem :
      (h : History) (r : CellRecord)
      → Holds (Lawful host name root) (Same h) h (validate_unique_cell_job_id host file_stem r)
  unfolding validate_unique_cell_job_id Permits
  unique_lem h r =
      perform-Holds read_cells _ tt
        (λ files.
          lift-Holds (map_err state (validate_files host files)) _ (λ cells _. finished _ refl)
            (λ e _. refl))
        (λ e. refl)

  -- What a load that succeeds tells.
  pub Loaded : CellId → History → After CellRecord
  Loaded id h h' (ok r) =
      (raw : CellRecord) × (known h' ≡ record (known h) { durable = some raw })
      × (r ≡ redact_cell_diagnostic raw)
      × (raw.id ≡ id)
  Loaded id h h' (err _) = Stale h (known h')

  unique_loaded :
      (id : CellId) (h : History) (raw : CellRecord)
      → raw.id ≡ id
      → (h' : History) (r : Result EngineError (Unit {0}))
      → known h' ≡ record (known h) { durable = some raw }
      → Then (Lawful host name root) (Loaded id h) (λ _. pure (redact_cell_diagnostic raw)) h' r
  unfolding Loaded
  unique_loaded id h raw same _ (ok _) e = finished _ (raw, e, refl, same)
  unique_loaded id h raw same _ (err _) e = (some raw, e)

  load_cell_lem :
      (id : CellId) (h : History)
      → Holds (Lawful host name root) (Loaded id h) h (load_cell host file_stem id)
  unfolding load_cell Permits Loaded
  load_cell_lem id h =
      perform-Holds (read_cell id) _ tt
        (λ raw.
          lift-Holds (map_err state (validate_cell_schema host (file_stem id) raw)) _
            (λ _ _.
              lift-Holds (reject_if (raw.id != id) (state identity_mismatch)) _
                (λ _ e.
                  bind-Holds _
                    (validate_unique_cell_job_id host file_stem (redact_cell_diagnostic raw))
                    (weaken-Holds
                      (λ h' r same.
                        unique_loaded id h raw (eq_of_not _ _ (reject_if-eq-ok _ _ e)) h' r same)
                      _ (unique_lem _ (redact_cell_diagnostic raw))))
                (λ e _. (some raw, refl)))
            (λ e _. (some raw, refl)))
        (λ e. ((known h).durable, refl))

  -- What a save that succeeds tells.
  pub Saved : CellRecord → History → After (Unit {0})
  Saved r h h' (ok _) = known h' ≡ record (known h) { durable = some (redact_cell_diagnostic r) }
  Saved r h h' (err _) = Stale h (known h')

  still_permitted :
      (r : CellRecord) (h : History) (k : Known)
      → Stale h k
      → Permits host name root (known h) (write_cell r)
      → Permits host name root k (write_cell r)
  unfolding Permits
  still_permitted r h k (d, e) w = rw e w

  write_lem :
      (r : CellRecord) (h h' : History)
      → Stale h (known h')
      → Permits host name root (known h) (write_cell (redact_cell_diagnostic r))
      → Holds
          (Lawful host name root)
          (Saved r h)
          h'
          (perform (write_cell (redact_cell_diagnostic r)))
  unfolding Saved
  write_lem r h h' (d, e) w =
      called (write_cell (redact_cell_diagnostic r)) _ (still_permitted _ h (known h') (d, e) w)
        (λ reply. finished reply (outcome reply))
    where
      outcome :
          (reply : Reply (write_cell (redact_cell_diagnostic r)))
          → Saved r h
              (record { op = write_cell (redact_cell_diagnostic r); reply = reply } ∷ h')
              reply
      outcome (ok _) = rw e refl
      outcome (err _) = (none, rw e refl)

  existing_lem :
      (r : CellRecord) (h : History)
      → Permits host name root (known h) (write_cell (redact_cell_diagnostic r))
      → (h' : History) (existing : Result EngineError CellRecord) → Stale h (known h')
      → Holds (Lawful host name root) (Saved r h) h' (
          lift (check_existing_job (redact_cell_diagnostic r) existing) >>= λ _.
          validate_unique_cell_job_id host file_stem (redact_cell_diagnostic r) >>= λ _.
          perform (write_cell (redact_cell_diagnostic r)))
  unfolding Saved
  existing_lem r h w h' existing s =
      lift-Holds (check_existing_job (redact_cell_diagnostic r) existing) _
        (λ _ _.
          bind-Holds _ (validate_unique_cell_job_id host file_stem (redact_cell_diagnostic r))
            (weaken-Holds unique_saved _ (unique_lem h' (redact_cell_diagnostic r))))
        (λ e _. s)
    where
      unique_saved :
          (g : History) (u : Result EngineError (Unit {0}))
          → known g ≡ known h'
          → Then
              (Lawful host name root)
              (Saved r h)
              (λ _. perform (write_cell (redact_cell_diagnostic r)))
              g
              u
      unique_saved g (ok _) e = write_lem r h g (rw e s) w
      unique_saved g (err _) e = rw e s

  -- The outcome of the load of the record that a save replaces.
  caught_lem :
      (r : CellRecord) (h h' : History)
      (caught : Result EngineError (Result EngineError CellRecord))
      → Permits host name root (known h) (write_cell (redact_cell_diagnostic r))
      → Caught (Loaded r.id h) h' caught
      → Then
          (Lawful host name root)
          (Saved r h)
          (λ existing. lift (check_existing_job (redact_cell_diagnostic r) existing) >>= λ _.
            validate_unique_cell_job_id host file_stem (redact_cell_diagnostic r) >>= λ _.
            perform (write_cell (redact_cell_diagnostic r)))
          h'
          caught
  unfolding Loaded
  caught_lem r h h' (ok (ok x)) w (raw, e, _, _) = existing_lem r h w h' (ok x) (some raw, e)
  caught_lem r h h' (ok (err x)) w s = existing_lem r h w h' (err x) s
  caught_lem r h h' (err _) w s = absurd s

  save_redacted_lem :
      (r : CellRecord) (h : History)
      → Permits host name root (known h) (write_cell (redact_cell_diagnostic r))
      → Holds
          (Lawful host name root)
          (Saved r h)
          h
          (save_redacted host file_stem (redact_cell_diagnostic r))
  unfolding save_redacted Saved redact_cell_diagnostic
  save_redacted_lem r h w =
      lift-Holds
        (map_err state (validate_cell_schema host (file_stem r.id) (redact_cell_diagnostic r))) _
        (λ _ _. bind-Holds _ (catch (load_cell host file_stem r.id)) (
          weaken-Holds (λ h' caught. caught_lem r h h' caught w) _
            (catch-Holds _ (load_cell_lem r.id h))))
        (λ e _. ((known h).durable, refl))

  validated_lem :
      (r : CellRecord) (h h' : History) (saved : Result EngineError (Unit {0}))
      → Saved r h h' saved
      → Then (Lawful host name root) (Saved r h) (λ _. perform validate_root) h' saved
  unfolding Saved Permits
  validated_lem r h h' (ok _) s =
      called validate_root _ tt (λ reply. finished reply (outcome reply))
    where
      outcome :
          (reply : Reply validate_root)
          → Saved r h (record { op = validate_root; reply = reply } ∷ h') reply
      outcome (ok _) = s
      outcome (err _) = (some (redact_cell_diagnostic r), s)
  validated_lem r h h' (err _) s = s

  save_cell_lem :
      (r : CellRecord) (h : History)
      → Permits host name root (known h) (write_cell r)
      → Holds (Lawful host name root) (Saved r h) h (save_cell host file_stem r)
  unfolding save_cell Saved Permits redact_cell_diagnostic
  save_cell_lem r h w =
      perform-Holds validate_root _ tt
        (λ _. bind-Holds _ (save_redacted host file_stem (redact_cell_diagnostic r)) (
          weaken-Holds (λ h' saved. validated_lem r h h' saved) _
            (save_redacted_lem r (record { op = validate_root; reply = ok tt } ∷ h) w)))
        (λ e. ((known h).durable, refl))

  -- The rest of a method after a load.
  pub load-Holds :
      {A : Type 0} {Q : After A} {h : History} (id : CellId) (f : CellRecord → Program A)
      → ((raw : CellRecord) (h' : History)
          → known h' ≡ record (known h) { durable = some raw }
          → raw.id ≡ id
          → Holds (Lawful host name root) Q h' (f (redact_cell_diagnostic raw)))
      → ((e : EngineError) (h' : History) → Stale h (known h') → Q h' (err e))
      → Holds (Lawful host name root) Q h (load_cell host file_stem id >>= f)
  unfolding Loaded
  load-Holds {A = A} {Q = Q} {h = h} id f w v =
      bind-Holds f (load_cell host file_stem id) (weaken-Holds continue _ (load_cell_lem id h))
    where
      continue :
          (h' : History) (r : Result EngineError CellRecord)
          → Loaded id h h' r
          → Then (Lawful host name root) Q f h' r
      continue h' (ok r) (raw, e, p, same) = rw p (w raw h' e same)
      continue h' (err e) s = v e h' s

  -- The rest of a method after a save.
  pub save-Holds :
      {A : Type 0} {Q : After A} {h : History} (r : CellRecord) (f : Unit {0} → Program A)
      → Permits host name root (known h) (write_cell r)
      → ((h' : History)
          → known h' ≡ record (known h) { durable = some (redact_cell_diagnostic r) }
          → Holds (Lawful host name root) Q h' (f tt))
      → ((e : EngineError) (h' : History) → Stale h (known h') → Q h' (err e))
      → Holds (Lawful host name root) Q h (save_cell host file_stem r >>= f)
  unfolding Saved
  save-Holds {A = A} {Q = Q} {h = h} r f p w v =
      bind-Holds f (save_cell host file_stem r) (weaken-Holds continue _ (save_cell_lem r h p))
    where
      continue :
          (h' : History) (s : Result EngineError (Unit {0}))
          → Saved r h h' s
          → Then (Lawful host name root) Q f h' s
      continue h' (ok _) e = w h' e
      continue h' (err e) s = v e h' s
