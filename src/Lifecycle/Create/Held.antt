-- ===== src/Lifecycle/Create/Held.antt =====
-- What a creation of a cell (src/engine/mod.rs) holds of its record, and its end where a step fails.
use vm_cell_manager.Prelude.{
  ◌≡◌, ◌∙◌, ap, refl, true, nat_eq, string_eq, ℕ, String, Option, none, some, ◌∷◌, Result, ok, err,
}
use vm_cell_manager.Host.{Uuid, Host}
use vm_cell_manager.Cell.{
  CellId, CellState, creating, stopped, CellPhase, ready, CellSpec, CellRecord,
  ProviderObjectIdentity,
}
use vm_cell_manager.Provider.{ProviderVm, power_state_eq}
use vm_cell_manager.Engine.Errors.{EngineError}
use vm_cell_manager.Engine.Local.{IsLocal, HasIdentity}
use vm_cell_manager.Engine.Proven.{IsIsolated}
use vm_cell_manager.Program.{Op, Answer, Reply, Program, ◌>>=◌, attempt}
use vm_cell_manager.Program.Logic.{History, called}
use vm_cell_manager.Store.{redact_cell_diagnostic}
use vm_cell_manager.Lifecycle.{moved}
use vm_cell_manager.Lifecycle.Known.{Known, known, IsStored}
use vm_cell_manager.Lifecycle.Known.Locked.{learn-IsLocked}
use vm_cell_manager.Lifecycle.Permits.{Permits, MayWrite, Holding, Conforms}
use vm_cell_manager.Lifecycle.Permits.Steps.{fail_record_lem}
use vm_cell_manager.Lifecycle.Create.{or_fail}

module _ (host : Host) (file_stem : Uuid → Option String) (name root : String) where
  -- A created cell: its record is stored as stopped and ready, belongs to the installation, and the
  -- last snapshot is one of its own isolated virtual machine.
  pub record Created (id : CellId) (spec : CellSpec) (k : Known) (r : CellRecord) : Type 0 where
    pub stored : IsStored k r
    pub same : r.id ≡ id
    pub requested : r.spec ≡ spec
    pub state : r.state ≡ stopped
    pub phase : r.phase ≡ ready
    pub install : Uuid
    pub local : IsLocal host name root install r
    pub vm : ProviderVm
    pub current : k.seen ≡ some vm
    pub isolated : IsIsolated host r vm

  -- What a creation holds of its record.
  pub record Making (id : CellId) (spec : CellSpec) (k : Known) (install : Uuid) (r : CellRecord)
      : Type 0 where
    pub lock : k.locked ≡ true
    pub installation : k.installation ≡ some install
    pub local : IsLocal host name root install r
    pub stored : IsStored k r
    pub runtime : k.pinned ≡ some (r.id, r.ownership.configuration_path, r.ownership.overlay_path)
    pub same : r.id ≡ id
    pub requested : r.spec ≡ spec
    pub state : r.state ≡ creating

  pub Making-Holding :
      {id : CellId} {spec : CellSpec} {k : Known} {install : Uuid} {r : CellRecord}
      → Making id spec k install r
      → Holding host name root k r
  Making-Holding {install = install} w = record {
    lock = w.lock;
    install = install;
    installation = w.installation;
    local = w.local;
    stored = w.stored;
    runtime = w.runtime;
  }

  pub moved-IsLocal :
      {install : Uuid} {r : CellRecord} (s : CellState) (p : CellPhase) (t : ℕ)
      → IsLocal host name root install r
      → IsLocal host name root install (moved r s p t)
  unfolding HasIdentity
  moved-IsLocal {r = r} s p t l = record {
    installation = l.installation;
    provider = l.provider;
    requested = l.requested;
    image_provider = l.image_provider;
    image = l.image;
    object_name = l.object_name;
    identity = moved_identity r.provider_object l.identity;
    schema = l.schema;
    marker = l.marker;
    configuration = l.configuration;
    overlay = l.overlay;
  }
    where
      moved_identity :
          (i : Option ProviderObjectIdentity)
          → HasIdentity host r i
          → HasIdentity host (moved r s p t) i
      moved_identity none h = tt
      moved_identity (some i) h = h

  pub saved-Making :
      {id : CellId} {spec : CellSpec} {k k' : Known} {install : Uuid} {r : CellRecord}
      (p : CellPhase) (t : ℕ)
      → k' ≡ record k { durable = some (redact_cell_diagnostic (moved r r.state p t)) }
      → Making id spec k install r
      → Making id spec k' install (moved r r.state p t)
  unfolding IsStored redact_cell_diagnostic
  saved-Making {r = r} p t e w = record {
    lock = ap (λ k. k.locked) e ∙ w.lock;
    installation = ap (λ k. k.installation) e ∙ w.installation;
    local = moved-IsLocal r.state p t w.local;
    stored = (redact_cell_diagnostic (moved r r.state p t), ap (λ k. k.durable) e, refl);
    runtime = ap (λ k. k.pinned) e ∙ w.runtime;
    same = w.same;
    requested = w.requested;
    state = w.state;
  }

  -- The end of a failing creation.
  pub or_fail_lem :
      {A : Type 0} {R : Known → CellRecord → Type 0} (r : CellRecord)
      (outcome : Result EngineError A) (f : A → Program CellRecord) (h : History)
      → (known h).locked ≡ true
      → ((a : A) → outcome ≡ ok a → Conforms host name root R h (f a))
      → Conforms host name root R h (or_fail host file_stem name root r outcome f)
  unfolding Permits MayWrite
  or_fail_lem r (ok a) f h l w = w a refl
  or_fail_lem {R = R} r (err e) f h l w =
      fail_record_lem host file_stem name root R r e h (λ t code. (l, tt))

  pub attempt_lem :
      {R : Known → CellRecord → Type 0} (r : CellRecord) (op : Op)
      (f : Answer op → Program CellRecord) (h : History)
      → Permits host name root (known h) op
      → (known h).locked ≡ true
      → ((a : Answer op) → Conforms host name root R (record { op = op; reply = ok a } ∷ h) (f a))
      → Conforms host name root R h
          (attempt op >>= λ reply. or_fail host file_stem name root r reply f)
  attempt_lem {R = R} r op f h p l w = record {
    paths = called op _ p (λ reply. (replied reply).paths);
  }
    where
      replied :
          (reply : Reply op)
          → Conforms host name root R
              (record { op = op; reply = reply } ∷ h)
              (or_fail host file_stem name root r reply f)
      replied (ok a) = w a
      replied (err e) =
          or_fail_lem r (err e) f _ (learn-IsLocked op (err e) (known h) l) (λ a same. cc)

  -- A change of the snapshot or of the free name.
  pub seen-Making :
      {id : CellId} {spec : CellSpec} {k : Known} {install : Uuid} {r : CellRecord}
      (vm : Option ProviderVm) (missing vacant : Option String)
      → Making id spec k install r
      → Making id spec (record k { seen = vm; missing = missing; vacant = vacant }) install r
  unfolding IsStored
  seen-Making vm missing vacant w = record {
    lock = w.lock;
    installation = w.installation;
    local = w.local;
    stored = w.stored;
    runtime = w.runtime;
    same = w.same;
    requested = w.requested;
    state = w.state;
  }
