-- ===== src/Lifecycle/Create/Begun.antt =====
-- The creation of a cell (src/engine/mod.rs) from its first record to its overlay.
use vm_cell_manager.Prelude.{
  ◌≡◌, ◌∙◌, ap, refl, true, nat_eq, string_eq, String, Option, none, some, ◌∷◌, is_some, ok,
  reject_if,
}
use vm_cell_manager.Host.{Uuid, Host}
use vm_cell_manager.Cell.{CellId, creating, intent_recorded, overlay_created, CellSpec, CellRecord}
use vm_cell_manager.Provider.{ProviderVm, ProviderImageInfo, power_state_eq, by_name, new_authority}
use vm_cell_manager.Engine.Errors.{ownership_not_proven}
use vm_cell_manager.Engine.Local.{IsLocal}
use vm_cell_manager.Program.{
  validate_parent_identity, prepare_cell_runtime, inspect_vm, create_overlay, now,
}
use vm_cell_manager.Program.Logic.{History}
use vm_cell_manager.Store.{redact_cell_diagnostic}
use vm_cell_manager.Lifecycle.{moved}
use vm_cell_manager.Lifecycle.Known.{known, IsStored}
use vm_cell_manager.Lifecycle.Permits.{Permits, MayWrite}
use vm_cell_manager.Lifecycle.Permits.Steps.{step, save, fail_record_lem, live_MayWrite}
use vm_cell_manager.Lifecycle.Create.Held.{
  Making-Holding, saved-Making, or_fail_lem, attempt_lem, seen-Making,
}
use vm_cell_manager.Lifecycle.Create.{
  validate_overlay, or_fail, record_overlay, check_overlay, make_overlay, check_parent,
  check_collision, begin_create,
}
use vm_cell_manager.Lifecycle.Create.Identified.{Make, Creates, create_object_lem}

module _ (host : Host) (file_stem : Uuid → Option String) (name root : String)
    (canonical : (u : Uuid) → host.parse_uuid (host.uuid_text u) ≡ some u)
    (same_path : (p : String) → host.paths_equal p p ≡ true) where
  record_overlay_lem :
      {id : CellId} {spec : CellSpec} {install : Uuid} (r : CellRecord) (h : History)
      → Make host file_stem name root canonical same_path id spec (known h) install r
      → (known h).vacant ≡ some r.ownership.provider_object_name
      → Creates host file_stem name root canonical same_path id spec h
          (record_overlay host file_stem name root r)
  unfolding record_overlay Permits
  record_overlay_lem r h w vacant = step now _ tt (λ t.
      save host file_stem name root (moved r r.state overlay_created t) _
        (
          w.lock,
          rw w.state
              (live_MayWrite host name root creating r.ownership.provider_object_name _ (λ e. cc)),
        )
        (λ h' e.
          create_object_lem host file_stem name root canonical same_path
            (moved r r.state overlay_created t) h'
            (saved-Making host file_stem name root overlay_created t e w) refl
            (ap (λ k. k.vacant) e ∙ vacant)))

  check_overlay_lem :
      {id : CellId} {spec : CellSpec} {install : Uuid} (r : CellRecord) (info : ProviderImageInfo)
      (h : History)
      → Make host file_stem name root canonical same_path id spec (known h) install r
      → (known h).vacant ≡ some r.ownership.provider_object_name
      → Creates host file_stem name root canonical same_path id spec h
          (check_overlay host file_stem name root r info)
  unfolding check_overlay Permits
  check_overlay_lem r info h w vacant =
      attempt_lem host file_stem name root r (validate_parent_identity r.image.path) _ h tt w.lock
        (λ _.
          or_fail_lem host file_stem name root r (validate_overlay host r info) _ _ w.lock (λ _ _.
            record_overlay_lem r _
              (seen-Making host file_stem name root (known h).seen (known h).missing
                (known h).vacant w)
              vacant))

  make_overlay_lem :
      {id : CellId} {spec : CellSpec} {install : Uuid} (r : CellRecord) (h : History)
      → Make host file_stem name root canonical same_path id spec (known h) install r
      → r.phase ≡ intent_recorded
      → (known h).vacant ≡ some r.ownership.provider_object_name
      → Creates host file_stem name root canonical same_path id spec h
          (make_overlay host file_stem name root r)
  unfolding make_overlay Permits
  make_overlay_lem r h w phase vacant =
      attempt_lem host file_stem name root r
        (create_overlay (new_authority r)
          (record { parent_path = r.image.path; overlay_path = r.ownership.overlay_path }))
        _ h
        (record {
          r = r;
          holding = Making-Holding host file_stem name root w;
          authority = refl;
          recorded = phase;
          state = w.state;
          vacant = vacant;
        })
        w.lock
        (λ info.
          check_overlay_lem r info _
            (seen-Making host file_stem name root (known h).seen (known h).missing (known h).vacant
              w)
            vacant)

  check_parent_lem :
      {id : CellId} {spec : CellSpec} {install : Uuid} (r : CellRecord) (h : History)
      → Make host file_stem name root canonical same_path id spec (known h) install r
      → r.phase ≡ intent_recorded
      → (known h).vacant ≡ some r.ownership.provider_object_name
      → Creates host file_stem name root canonical same_path id spec h
          (check_parent host file_stem name root r)
  unfolding check_parent Permits
  check_parent_lem r h w phase vacant =
      attempt_lem host file_stem name root r (validate_parent_identity r.image.path) _ h tt w.lock
        (λ _.
          make_overlay_lem r _
            (seen-Making host file_stem name root (known h).seen (known h).missing (known h).vacant
              w)
            phase vacant)

  check_collision_lem :
      {id : CellId} {spec : CellSpec} {install : Uuid} (r : CellRecord) (h : History)
      → Make host file_stem name root canonical same_path id spec (known h) install r
      → r.phase ≡ intent_recorded
      → Creates host file_stem name root canonical same_path id spec h
          (check_collision host file_stem name root r)
  unfolding check_collision Permits MayWrite
  check_collision_lem {id = id} {spec = spec} {install = install} r h w phase =
      step (inspect_vm (by_name r.ownership.provider_object_name)) _ tt named
    where
      named :
          (named : Option ProviderVm)
          → Creates host file_stem name root canonical same_path id spec
              (record {
                op = inspect_vm (by_name r.ownership.provider_object_name);
                reply = ok named;
              }
                ∷ h)
              (or_fail host file_stem name root r
                (reject_if (is_some named) ownership_not_proven)
                (λ _. check_parent host file_stem name root r))
      named (some _) =
          fail_record_lem host file_stem name root _ r ownership_not_proven _
            (λ t code. (w.lock, tt))
      named none =
          check_parent_lem r _
            (seen-Making host file_stem name root (known h).seen (known h).missing
              (some r.ownership.provider_object_name) w)
            phase refl

  pub begin_create_lem :
      (install : Uuid) (r : CellRecord) (h : History)
      → (known h).locked ≡ true
      → (known h).installation ≡ some install
      → IsLocal host name root install r
      → r.state ≡ creating
      → r.phase ≡ intent_recorded
      → Creates host file_stem name root canonical same_path r.id r.spec h
          (begin_create host file_stem name root r)
  unfolding begin_create Permits IsStored redact_cell_diagnostic
  begin_create_lem install r h lock held l state phase =
      save host file_stem name root r _
        (
          lock,
          rw state
              (live_MayWrite host name root creating r.ownership.provider_object_name _ (λ e. cc)),
        )
        (λ h' e.
          attempt_lem host file_stem name root r
            (prepare_cell_runtime r.id r.ownership.configuration_path r.ownership.overlay_path) _ h'
            tt (ap (λ k. k.locked) e ∙ lock)
            (λ _.
              check_collision_lem r _
                (record {
                  lock = ap (λ k. k.locked) e ∙ lock;
                  installation = ap (λ k. k.installation) e ∙ held;
                  local = l;
                  stored = (redact_cell_diagnostic r, ap (λ k. k.durable) e, refl);
                  runtime = refl;
                  same = refl;
                  requested = refl;
                  state = state;
                })
                phase))
