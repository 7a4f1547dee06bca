-- ===== src/Lifecycle/Single.antt =====
-- A platform with one stored cell and one virtual machine, on which nothing fails: what the state
-- store of src/state/mod.rs does there.
use vm_cell_manager.Prelude.{
  ◌≡◌, refl, ap, sym, true, ◌++◌, false, ◌!=◌, nat_eq, string_eq, option_eq, ℕ, String, Option,
  none, some, [], ◌∷◌, map_err, if◌then◌else◌, ok, reject_if, reject_if-passes, not_of_eq, Bool,
}
use vm_cell_manager.Host.{Uuid, Host}
use vm_cell_manager.Image.{ImageVariant}
use vm_cell_manager.Cell.{CellId, CellRecord, JobCorrelation, job_correlation_eq}
use vm_cell_manager.Provider.{ProviderVm, ProviderPowerState, off, by_id, MutationAuthority}
use vm_cell_manager.Engine.Errors.{EngineError, state, identity_mismatch}
use vm_cell_manager.Program.{
  catch, acquire_mutation_lock, validate_root, read_cell, read_cells, write_cell, load_installation,
  acquire_installation_authority, verify_registered_image, pin_cell_runtime, now, inspect_vm,
  start_vm, stop_vm,
}
use vm_cell_manager.Program.Logic.{Platform}
use vm_cell_manager.Program.Yields.{
  Yields, perform-Yields, lift-Yields, end-Yields, last-Yields, catch-Yields, pure-Yields,
  bind-Yields,
}
use vm_cell_manager.Store.{
  redact_cell_diagnostic, validate_cell_schema, validate_files, validate_unique_cell_job_ids,
  insert_job, with_cell,
}
use vm_cell_manager.Store.Files.{
  check_existing_job, validate_unique_cell_job_id, load_cell, save_redacted, save_cell,
}

-- What the platform answers, given its state's record and virtual machine.
pub record IsSingle {S : Type 0} (handle : Platform S) (file_stem : Uuid → Option String)
    (install : Uuid) (clock : ℕ) (stored : S → CellRecord) (machine : S → ProviderVm)
    (put : CellRecord → S → S) (power : ProviderPowerState → S → S) : Type 0 where
  pub lock : (s : S) → handle acquire_mutation_lock s ≡ (ok tt, s)
  pub root : (s : S) → handle validate_root s ≡ (ok tt, s)
  pub read : (s : S) → handle (read_cell (stored s).id) s ≡ (ok (stored s), s)
  pub files : (s : S) → handle read_cells s ≡ (ok ((file_stem (stored s).id, stored s) ∷ []), s)
  pub write : (r : CellRecord) (s : S) → handle (write_cell r) s ≡ (ok tt, put r s)
  pub installation : (s : S) → handle load_installation s ≡ (ok install, s)
  pub authority : (s : S) → handle acquire_installation_authority s ≡ (ok install, s)
  pub verify : (v : ImageVariant) (s : S) → handle (verify_registered_image v) s ≡ (ok tt, s)
  pub pin : (i : CellId) (c o : String) (s : S) → handle (pin_cell_runtime i c o) s ≡ (ok tt, s)
  pub time : (s : S) → handle now s ≡ (ok clock, s)
  pub inspect : (s : S) → handle (inspect_vm (by_id (machine s).id)) s ≡ (ok (some (machine s)), s)
  pub start :
      (a : MutationAuthority) (vm : ProviderVm) (s : S)
      → handle (start_vm a vm) s ≡ (ok tt, power ProviderPowerState.running s)
  pub stop :
      (a : MutationAuthority) (vm : ProviderVm) (s : S)
      → handle (stop_vm a vm) s ≡ (ok tt, power off s)
  pub put_stored : (r : CellRecord) (s : S) → stored (put r s) ≡ r
  pub power_stored : (p : ProviderPowerState) (s : S) → stored (power p s) ≡ stored s
  pub power_machine :
      (p : ProviderPowerState) (s : S)
      → machine (power p s) ≡ record (machine s) { power_state = p }

alone_files :
    (host : Host) (stem : Option String) (s : CellRecord)
    → validate_cell_schema host stem s ≡ ok tt
    → map_err state (validate_files host ((stem, s) ∷ [])) ≡ ok (s ∷ [])
unfolding validate_files
alone_files host stem s schema = rw schema refl

alone_with : (r s : CellRecord) → s.id ≡ r.id → with_cell r (s ∷ []) ≡ r ∷ []
alone_with r s same = dropped (s.id != r.id) (not_of_eq same)
  where
    dropped : (b : Bool) → b ≡ false → (if b then s ∷ [] else []) ++ (r ∷ []) ≡ r ∷ []
    dropped true e = cc
    dropped false e = refl

unique_alone : (r : CellRecord) → validate_unique_cell_job_ids [] (r ∷ []) ≡ ok tt
unfolding validate_unique_cell_job_ids
unique_alone r = one r.job
  where
    one : (job : Option JobCorrelation) → insert_job [] job (λ keys. ok tt) ≡ ok tt
    one none = refl
    one (some job) = refl

module _ {S : Type 0} {handle : Platform S} {install : Uuid} {clock : ℕ} {stored : S → CellRecord}
    {machine : S → ProviderVm} {put : CellRecord → S → S} {power : ProviderPowerState → S → S}
    (host : Host) (file_stem : Uuid → Option String)
    (w : IsSingle handle file_stem install clock stored machine put power) where
  unique_Yields :
      (r : CellRecord) (s : S)
      → (stored s).id ≡ r.id
      → validate_cell_schema host (file_stem (stored s).id) (stored s) ≡ ok tt
      → Yields handle (validate_unique_cell_job_id host file_stem r) s tt s
  unfolding validate_unique_cell_job_id
  unique_Yields r s same schema = perform-Yields read_cells _ (w.files s) (
      lift-Yields (map_err state (validate_files host ((file_stem (stored s).id, stored s) ∷ []))) _
        (alone_files host (file_stem (stored s).id) (stored s) schema)
        (end-Yields _ (rw (alone_with r (stored s) same) (ap (map_err state) (unique_alone r)))))

  pub load_cell-Yields :
      (s : S)
      → validate_cell_schema host (file_stem (stored s).id) (stored s) ≡ ok tt
      → Yields handle
          (load_cell host file_stem (stored s).id)
          s
          (redact_cell_diagnostic (stored s))
          s
  unfolding load_cell redact_cell_diagnostic
  load_cell-Yields s schema = perform-Yields (read_cell (stored s).id) _ (w.read s) (
      lift-Yields (map_err state (validate_cell_schema host (file_stem (stored s).id) (stored s))) _
        (ap (map_err state) schema)
        (lift-Yields
          (reject_if ((stored s).id != (stored s).id) (EngineError.state identity_mismatch)) _
          (reject_if-passes ((stored s).id != (stored s).id) _
            (not_of_eq {A = CellId} {a = (stored s).id} refl))
          (bind-Yields
            (validate_unique_cell_job_id host file_stem (redact_cell_diagnostic (stored s))) _
            (unique_Yields (redact_cell_diagnostic (stored s)) s refl schema)
            (pure-Yields (redact_cell_diagnostic (stored s))))))

  pub save_cell-Yields :
      (r : CellRecord) (s : S)
      → r.id ≡ (stored s).id
      → r.job ≡ (stored s).job
      → validate_cell_schema host (file_stem (stored s).id) (stored s) ≡ ok tt
      → validate_cell_schema host (file_stem r.id) (redact_cell_diagnostic r) ≡ ok tt
      → Yields handle (save_cell host file_stem r) s tt (put (redact_cell_diagnostic r) s)
  unfolding save_cell save_redacted redact_cell_diagnostic check_existing_job
  save_cell-Yields r s same job old schema = perform-Yields validate_root _ (w.root s) (
      bind-Yields (save_redacted host file_stem (redact_cell_diagnostic r)) _
        (lift-Yields
          (map_err state (validate_cell_schema host (file_stem r.id) (redact_cell_diagnostic r))) _
          (ap (map_err state) schema)
          (bind-Yields (catch (load_cell host file_stem r.id)) _
            (catch-Yields {a = redact_cell_diagnostic (stored s)} (load_cell host file_stem r.id)
              (rw same (load_cell-Yields s old)))
            (lift-Yields
              (check_existing_job (redact_cell_diagnostic r)
                (ok (redact_cell_diagnostic (stored s))))
              _ (reject_if-passes _ _ (not_of_eq (sym job)))
              (bind-Yields (validate_unique_cell_job_id host file_stem (redact_cell_diagnostic r)) _
                (unique_Yields (redact_cell_diagnostic r) s (sym same) old)
                (last-Yields (write_cell (redact_cell_diagnostic r)) (w.write _ s))))))
        (last-Yields validate_root (w.root _)))
