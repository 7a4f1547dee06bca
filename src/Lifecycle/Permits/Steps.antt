-- ===== src/Lifecycle/Permits/Steps.antt =====
-- The rest of a lifecycle method after each kind of step that it is made of.
use vm_cell_manager.Prelude.{
  ◌≡◌, ◌≢◌, Eq, eq_self, true, false, refl, ℕ, String, Option, none, some, Bool, ◌==◌, ◌∷◌, Result,
  ok, err, ok_or, reject_if, reject_if-eq-ok, if◌then◌else◌,
}
use vm_cell_manager.Host.{Uuid, Host}
use vm_cell_manager.Cell.{
  CellId, CellState, creating, stopped, running, destroying, failed, cell_state_eq, ready,
  CellRecord,
}
use vm_cell_manager.Provider.{ProviderVm, by_id}
use vm_cell_manager.Engine.Errors.{EngineError, ownership_not_proven, durable_error_code}
use vm_cell_manager.Engine.Identity.{prove_ownership, validate_local_ownership_record}
use vm_cell_manager.Engine.Local.{IsLocal, validate_local_ownership_record_iff}
use vm_cell_manager.Program.{
  Op, Answer, Reply, Program, ◌>>=◌, lift, pure, fail, perform, now, inspect_vm, load_installation,
  write_cell,
}
use vm_cell_manager.Program.Logic.{
  History, Then, finished, called, bind-Holds, weaken-Holds, lift-Holds, perform-Holds,
}
use vm_cell_manager.Store.{redact_cell_diagnostic}
use vm_cell_manager.Store.Files.{load_cell, save_cell}
use vm_cell_manager.Lifecycle.{
  OperationReport, operation_report, fail_if, moved, validate_local_ownership, exact_owned_vm,
  settle_record, fail_record,
}
use vm_cell_manager.Lifecycle.Known.{Known, known}
use vm_cell_manager.Lifecycle.Permits.{Permits, MayWrite, Lawful, Ends, Conforms}
use vm_cell_manager.Lifecycle.Permits.Stored.{load-Holds, save-Holds}

module _ {host : Host} {name root : String} where
  -- One call.
  pub step :
      {A : Type 0} {R : Known → A → Type 0} {h : History} (op : Op) (f : Answer op → Program A)
      → Permits host name root (known h) op
      → ((a : Answer op) → Conforms host name root R (record { op = op; reply = ok a } ∷ h) (f a))
      → Conforms host name root R h (perform op >>= f)
  step op f p w = record { paths = perform-Holds op f p (λ a. (w a).paths) (λ e. tt) }

  -- One call that comes last.
  pub step_last :
      {h : History} (op : Op) {R : Known → Answer op → Type 0}
      → Permits host name root (known h) op
      → ((a : Answer op) → R (known (record { op = op; reply = ok a } ∷ h)) a)
      → Conforms host name root R h (perform op)
  step_last {h = h} op {R = R} p w = record {
    paths = called op _ p (λ reply. finished reply (ends reply));
  }
    where
      ends : (reply : Reply op) → Ends R (record { op = op; reply = reply } ∷ h) reply
      ends (ok a) = w a
      ends (err e) = tt

  -- The two branches of an `if`.
  pub either :
      {A : Type 0} {R : Known → A → Type 0} {h : History} (test : Bool) {x y : Program A}
      → (test ≡ true → Conforms host name root R h x)
      → (test ≡ false → Conforms host name root R h y)
      → Conforms host name root R h (if test then x else y)
  either true w v = w refl
  either false w v = v refl

  -- A check that calls nothing.
  pub check :
      {A B : Type 0} {R : Known → B → Type 0} {h : History} (r : Result EngineError A)
      (f : A → Program B)
      → ((a : A) → r ≡ ok a → Conforms host name root R h (f a))
      → Conforms host name root R h (lift r >>= f)
  check r f w = record { paths = lift-Holds r f (λ a e. (w a e).paths) (λ e _. tt) }

  -- The check of a record against a pinned installation.
  pub check_local :
      {B : Type 0} {R : Known → B → Type 0} {h : History} (r : CellRecord) (install : Uuid)
      (f : Unit {0} → Program B)
      → (IsLocal host name root install r → Conforms host name root R h (f tt))
      → Conforms host name root R h
          (lift (validate_local_ownership_record host name root r install) >>= f)
  check_local r install f w =
      check (validate_local_ownership_record host name root r install) f
        (λ _ e. w ((validate_local_ownership_record_iff host name root r install).0 e))

  -- A method within a method.
  pub bind :
      {A B : Type 0} {S : Known → A → Type 0} {R : Known → B → Type 0} {h : History} (m : Program A)
      (f : A → Program B)
      → Conforms host name root S h m
      → ((a : A) (h' : History) → S (known h') a → Conforms host name root R h' (f a))
      → Conforms host name root R h (m >>= f)
  bind {A = A} {S = S} {R = R} m f w v = record {
    paths = bind-Holds f m (weaken-Holds continue m w.paths);
  }
    where
      continue :
          (h' : History) (r : Result EngineError A)
          → Ends S h' r
          → Then (Lawful host name root) (Ends R) f h' r
      continue h' (ok a) s = (v a h' s).paths
      continue h' (err e) s = tt

  pub weaken :
      {A : Type 0} {S R : Known → A → Type 0} {h : History} (m : Program A)
      → ((k : Known) (a : A) → S k a → R k a)
      → Conforms host name root S h m
      → Conforms host name root R h m
  weaken {A = A} {S = S} {R = R} m g w = record { paths = weaken-Holds ends m w.paths }
    where
      ends : (h : History) (r : Result EngineError A) → Ends S h r → Ends R h r
      ends h (ok a) s = g (known h) a s
      ends h (err e) s = tt

  -- The end of a method.
  pub finishes :
      {A : Type 0} {R : Known → A → Type 0} {h : History} (a : A)
      → R (known h) a
      → Conforms host name root R h (pure a)
  finishes a w = record { paths = finished (ok a) w }

  pub fails :
      {A : Type 0} {R : Known → A → Type 0} {h : History} (e : EngineError)
      → Conforms host name root R h (fail e)
  fails e = record { paths = finished (err e) tt }

  -- A check that comes last.
  pub check_last :
      {A : Type 0} {R : Known → A → Type 0} {h : History} (r : Result EngineError A)
      → ((a : A) → r ≡ ok a → R (known h) a)
      → Conforms host name root R h (lift r)
  check_last (ok a) w = record { paths = finished (ok a) (w a refl) }
  check_last (err e) w = record { paths = finished (err e) tt }

  pub check_not :
      {B : Type 0} {R : Known → B → Type 0} {h : History} (test : Bool) (e : EngineError)
      (f : Unit {0} → Program B)
      → (test ≡ false → Conforms host name root R h (f tt))
      → Conforms host name root R h (fail_if test e >>= f)
  check_not test e f w = check (reject_if test e) f (λ _ p. w (reject_if-eq-ok test e p))

module _ (host : Host) (file_stem : Uuid → Option String) (name root : String) where
  -- A load and a save of the state store.
  pub load :
      {A : Type 0} {R : Known → A → Type 0} {h : History} (id : CellId) (f : CellRecord → Program A)
      → ((raw : CellRecord) (h' : History)
          → known h' ≡ record (known h) { durable = some raw }
          → raw.id ≡ id
          → Conforms host name root R h' (f (redact_cell_diagnostic raw)))
      → Conforms host name root R h (load_cell host file_stem id >>= f)
  load id f w = record {
    paths =
        load-Holds host file_stem name root id f (λ raw h' e i. (w raw h' e i).paths)
          (λ e h' _. tt);
  }

  pub save :
      {A : Type 0} {R : Known → A → Type 0} {h : History} (r : CellRecord)
      (f : Unit {0} → Program A)
      → Permits host name root (known h) (write_cell r)
      → ((h' : History)
          → known h' ≡ record (known h) { durable = some (redact_cell_diagnostic r) }
          → Conforms host name root R h' (f tt))
      → Conforms host name root R h (save_cell host file_stem r >>= f)
  save r f p w = record {
    paths = save-Holds host file_stem name root r f p (λ h' e. (w h' e).paths) (λ e h' _. tt);
  }

  -- A snapshot of the cell's own virtual machine.
  unfoldable pub Owned : CellRecord → Known → Known → ProviderVm → Type 0
  Owned r k k' vm =
      (k' ≡ record k { seen = some vm; missing = none }) × (prove_ownership host r vm ≡ ok tt)

  found_lem :
      (r : CellRecord) (h : History) (id : String) (found : Option ProviderVm)
      → Conforms host name root
          (Owned r (known h))
          (record { op = inspect_vm (by_id id); reply = ok found } ∷ h)
          (lift (ok_or ownership_not_proven found) >>= λ vm.
            lift (prove_ownership host r vm) >>= λ _. pure vm)
  unfolding Owned
  found_lem r h id none = fails ownership_not_proven
  found_lem r h id (some vm) = check (prove_ownership host r vm) _ (λ _ e. finishes vm (refl, e))

  pub exact_owned_vm_lem :
      (r : CellRecord) (h : History)
      → Conforms host name root (Owned r (known h)) h (exact_owned_vm host file_stem name root r)
  unfolding exact_owned_vm validate_local_ownership Permits
  exact_owned_vm_lem r h = check_not (r.state == CellState.destroyed) ownership_not_proven _ (λ _.
      bind (validate_local_ownership host file_stem name root r) _ (validated h) (λ _ h' e.
        check (ok_or ownership_not_proven r.provider_object) _ (λ identity _.
          step (inspect_vm (by_id identity.id)) _ tt
            (λ found. rw (← e) (found_lem r h' identity.id found)))))
    where
      validated :
          (h : History)
          → Conforms host name root
              (λ k _. k ≡ known h)
              h
              (validate_local_ownership host file_stem name root r)
      validated h = step load_installation _ tt (λ install.
          check_last (validate_local_ownership_record host name root r install) (λ _ _. refl))

  -- The record that a method saves last.
  unfoldable pub Settled : CellRecord → CellState → Bool → Known → Known → OperationReport → Type 0
  Settled r s changed k k' report =
      (t : ℕ) × (k' ≡ record k { durable = some (redact_cell_diagnostic (moved r s ready t)) })
      × (report ≡ operation_report (moved r s ready t) changed)

  pub settle_lem :
      (r : CellRecord) (s : CellState) (changed : Bool) (h : History)
      → ((t : ℕ) → Permits host name root (known h) (write_cell (moved r s ready t)))
      → Conforms host name root
          (Settled r s changed (known h))
          h
          (settle_record host file_stem name root r s changed)
  unfolding settle_record Permits Settled
  settle_lem r s changed h w =
      step now _ tt (λ t. save (moved r s ready t) _ (w t) (λ h' e. finishes _ (t, e, refl)))

  pub fail_record_lem :
      {A : Type 0} (R : Known → A → Type 0) (r : CellRecord) (e : EngineError) (h : History)
      → ((t : ℕ) (code : String)
          → Permits host name root
              (known h)
              (write_cell (record r { state = failed; updated_at = t; last_error = some code })))
      → Conforms host name root R h (fail_record host file_stem name root r e)
  unfolding fail_record Permits
  fail_record_lem R r e h w = step now _ tt (λ t.
      save (record r { state = failed; updated_at = t; last_error = some (durable_error_code e) }) _
        (w t (durable_error_code e)) (λ h' _. fails e))

-- A record that is no tombstone may be written at any time.
pub live_MayWrite :
    (host : Host) (name root : String) (s : CellState) (object_name : String)
    (vacant : Option String)
    → s ≢ CellState.destroyed
    → MayWrite host name root s object_name vacant
unfolding MayWrite
live_MayWrite host name root creating o v live = tt
live_MayWrite host name root stopped o v live = tt
live_MayWrite host name root running o v live = tt
live_MayWrite host name root destroying o v live = tt
live_MayWrite host name root failed o v live = tt
live_MayWrite host name root CellState.destroyed o v live = absurd (live refl)

pub ne_of_test : {A : Type 0} ⦃e : Eq A⦄ (a b : A) → (a == b) ≡ false → a ≢ b
ne_of_test a b h p = let t = eq_self b in let q : (b == b) ≡ false = rw p at h in cc
