-- ===== src/Lifecycle/Create/Identified.antt =====
-- The creation of a cell (src/engine/mod.rs) from the creation of its virtual machine on.
use vm_cell_manager.Prelude.{
  ◌≡◌, ◌∙◌, ap, refl, true, ◌!=◌, nat_eq, string_eq, ℕ, String, Option, none, some, ◌∷◌, ok, ok_or,
  eq_of_not, Bool-cases, inl, inr,
}
use vm_cell_manager.Host.{Uuid, Host}
use vm_cell_manager.Cell.{
  CellId, creating, overlay_created, provider_object_created, CellSpec, CellRecord,
  ProviderObjectIdentity,
}
use vm_cell_manager.Provider.{ProviderVm, ProviderVmIdentity, power_state_eq, by_id, new_authority}
use vm_cell_manager.Engine.Errors.{provider_drift}
use vm_cell_manager.Engine.Local.{HasIdentity}
use vm_cell_manager.Program.{Program, inspect_vm, create_vm, now}
use vm_cell_manager.Program.Logic.{History}
use vm_cell_manager.Store.{redact_cell_diagnostic}
use vm_cell_manager.Lifecycle.Known.{Known, known, IsStored}
use vm_cell_manager.Lifecycle.Permits.{Permits, MayWrite, Conforms}
use vm_cell_manager.Lifecycle.Permits.Steps.{step, save, fail_record_lem, live_MayWrite}
use vm_cell_manager.Lifecycle.Create.Held.{
  Created, Making, Making-Holding, or_fail_lem, attempt_lem, seen-Making,
}
use vm_cell_manager.Lifecycle.Create.Making.{claim_new_lem}
use vm_cell_manager.Lifecycle.Create.{
  canonical_identity, normalize_provider_identity, or_fail, claim_new, inspect_created, identified,
  record_created, create_request, create_object,
}

module _ (host : Host) (file_stem : Uuid → Option String) (name root : String)
    (canonical : (u : Uuid) → host.parse_uuid (host.uuid_text u) ≡ some u)
    (same_path : (p : String) → host.paths_equal p p ≡ true) where
  abbrev pub Make : CellId → CellSpec → Known → Uuid → CellRecord → Type 0
  Make id spec k install r = Making host file_stem name root id spec k install r

  abbrev pub Creates : CellId → CellSpec → History → Program CellRecord → Type 0
  Creates id spec h m = Conforms host name root (Created host file_stem name root id spec) h m

  inspect_created_lem :
      {id : CellId} {spec : CellSpec} {install : Uuid} (r : CellRecord) (object : String)
      (h : History)
      → Make id spec (known h) install r
      → r.phase ≡ provider_object_created
      → Creates id spec h (inspect_created host file_stem name root r object)
  unfolding inspect_created Permits MayWrite
  inspect_created_lem {id = id} {spec = spec} {install = install} r object h w phase =
      step (inspect_vm (by_id object)) _ tt found
    where
      found :
          (found : Option ProviderVm)
          → Creates id spec (record { op = inspect_vm (by_id object); reply = ok found } ∷ h) (
              or_fail host file_stem name root r
                (ok_or provider_drift found)
                (claim_new host file_stem name root r))
      found none =
          fail_record_lem host file_stem name root _ r provider_drift _ (λ t code. (w.lock, tt))
      found (some vm) =
          claim_new_lem host file_stem name root r vm _
            (seen-Making host file_stem name root (some vm) none (known h).vacant w) refl phase

  canonical_lem :
      (r : CellRecord) (object_name : String) (id : Option Uuid) (n : ProviderObjectIdentity)
      → canonical_identity host r object_name id ≡ ok n
      → HasIdentity host r (some n)
  unfolding HasIdentity
  canonical_lem r object_name none n h = cc
  canonical_lem r object_name (some u) n h =
      elim (Bool-cases (object_name != r.ownership.provider_object_name)) [
        | inl c ↦ let d = rw c at h in cc
        | inr c ↦
            let d = rw c at h in
            let same : n ≡ record { id = host.uuid_text u; name = object_name } = cc in
            rw same ((u, canonical u, refl), eq_of_not _ _ c)
      ]

  normalized_lem :
      (r : CellRecord) (identity : ProviderVmIdentity) (n : ProviderObjectIdentity)
      → normalize_provider_identity host r identity ≡ ok n
      → HasIdentity host r (some n)
  unfolding normalize_provider_identity
  normalized_lem r identity n h = canonical_lem r identity.name (host.parse_uuid identity.id) n h

  identified-Making :
      {id : CellId} {spec : CellSpec} {k k' : Known} {install : Uuid} {r : CellRecord}
      (n : ProviderObjectIdentity) (t : ℕ)
      → HasIdentity host r (some n)
      → k' ≡ record k {
        durable = some (redact_cell_diagnostic (identified host file_stem name root r n t));
      }
      → Make id spec k install r
      → Make id spec k' install (identified host file_stem name root r n t)
  unfolding IsStored redact_cell_diagnostic HasIdentity
  identified-Making {r = r} n t i e w =
      let l = w.local in
      record {
        lock = ap (λ k. k.locked) e ∙ w.lock;
        installation = ap (λ k. k.installation) e ∙ w.installation;
        local = record {
          installation = l.installation;
          provider = l.provider;
          requested = l.requested;
          image_provider = l.image_provider;
          image = l.image;
          object_name = l.object_name;
          identity = i;
          schema = l.schema;
          marker = l.marker;
          configuration = l.configuration;
          overlay = l.overlay;
        };
        stored = (
          redact_cell_diagnostic (identified host file_stem name root r n t),
          ap (λ k. k.durable) e,
          refl,
        );
        runtime = ap (λ k. k.pinned) e ∙ w.runtime;
        same = w.same;
        requested = w.requested;
        state = w.state;
      }

  record_created_lem :
      {id : CellId} {spec : CellSpec} {install : Uuid} (r : CellRecord) (n : ProviderObjectIdentity)
      (h : History)
      → Make id spec (known h) install r
      → HasIdentity host r (some n)
      → Creates id spec h (record_created host file_stem name root r n)
  unfolding record_created Permits
  record_created_lem r n h w i = step now _ tt (λ t.
      save host file_stem name root (identified host file_stem name root r n t) _
        (
          w.lock,
          rw w.state
              (live_MayWrite host name root creating r.ownership.provider_object_name _ (λ e. cc)),
        )
        (λ h' e.
          inspect_created_lem (identified host file_stem name root r n t) n.id h'
            (identified-Making n t i e w) refl))

  pub create_object_lem :
      {id : CellId} {spec : CellSpec} {install : Uuid} (r : CellRecord) (h : History)
      → Make id spec (known h) install r
      → r.phase ≡ overlay_created
      → (known h).vacant ≡ some r.ownership.provider_object_name
      → Creates id spec h (create_object host file_stem name root r)
  unfolding create_object Permits
  create_object_lem r h w phase vacant =
      attempt_lem host file_stem name root r
        (create_vm (new_authority r) (create_request host file_stem name root r)) _ h
        (record {
          r = r;
          holding = Making-Holding host file_stem name root w;
          authority = refl;
          recorded = phase;
          state = w.state;
          vacant = vacant;
        })
        w.lock
        (λ identity.
          or_fail_lem host file_stem name root r (normalize_provider_identity host r identity) _ _
            w.lock
            (λ n e.
              record_created_lem r n _
                (seen-Making host file_stem name root (known h).seen none none w)
                (normalized_lem r identity n e)))
