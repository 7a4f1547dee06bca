-- ===== src/Lifecycle/Create/Created.antt =====
-- The creation of a cell (src/engine/mod.rs): what it calls, in which order it records, and what its
-- success means.
use vm_cell_manager.Prelude.{
  ◌≡◌, ap, sym, refl, true, not, ◌==◌, ◌!=◌, nat_eq, string_eq, ℕ, String, Option, some, List, ◌∷◌,
  [], filter-mem, Memᴰ, ok, reject_if, eq_of_not, eq_of_test, map_err,
}
use vm_cell_manager.Host.{Uuid, Host}
use vm_cell_manager.Image.{ImageId, ImageVariant, ImageRecord, from_variant}
use vm_cell_manager.Cell.{CellId, CellSpec, JobCorrelation, new_ownership}
use vm_cell_manager.Provider.{power_state_eq, normalized}
use vm_cell_manager.Engine.Errors.{
  EngineError, identity_mismatch, provider_unavailable, ownership_not_proven,
}
use vm_cell_manager.Engine.Local.{IsLocal, HasIdentity}
use vm_cell_manager.Engine.Request.{validate_cell_spec, validate_cell_spec-IsBounded}
use vm_cell_manager.Program.{
  acquire_mutation_lock, create_installation, acquire_installation_authority,
  verify_registered_image, now, new_uuid, probe, read_image,
}
use vm_cell_manager.Program.Logic.{History}
use vm_cell_manager.Store.{validate_image_schema}
use vm_cell_manager.Store.Files.{load_image}
use vm_cell_manager.Lifecycle.{require_provider, require_provider_available}
use vm_cell_manager.Lifecycle.Known.{known}
use vm_cell_manager.Lifecycle.Permits.{Permits, Conforms}
use vm_cell_manager.Lifecycle.Permits.Steps.{step, check, check_last, check_not, bind, finishes}
use vm_cell_manager.Lifecycle.Create.{
  provider_variant, only_variant, Intent, first_record, create_cell_with_id,
}
use vm_cell_manager.Lifecycle.Create.Identified.{Creates}
use vm_cell_manager.Lifecycle.Create.Begun.{begin_create_lem}

module _ (host : Host) (file_stem : Uuid → Option String) (name root : String)
    (canonical : (u : Uuid) → host.parse_uuid (host.uuid_text u) ≡ some u)
    (same_path : (p : String) → host.paths_equal p p ≡ true) where
  -- The variant that a record of an image has for a provider is one of that provider.
  only_variant-mem :
      (variants : List ImageVariant) (v : ImageVariant)
      → only_variant variants ≡ ok v
      → Memᴰ v variants
  only_variant-mem [] v h = cc
  only_variant-mem (w ∷ []) v h = Memᴰ.head cc
  only_variant-mem (w ∷ _ ∷ _) v h = cc

  provider_variant_lem :
      (image : ImageRecord) (v : ImageVariant)
      → provider_variant image name ≡ ok v
      → v.provider ≡ name
  unfolding provider_variant
  provider_variant_lem image v h =
      let (_, e) = filter-mem (λ v. v.provider == name) image.variants (only_variant-mem _ v h) in
      eq_of_test _ _ e

  available_lem :
      (h : History)
      → Conforms host name root (λ k _. k ≡ known h) h (require_provider_available name)
  unfolding require_provider_available Permits
  available_lem h = check (require_provider name) _ (λ _ _. step probe _ tt (λ report.
      check_last (reject_if (not (normalized report).available) provider_unavailable)
        (λ _ _. refl)))

  load_image_lem :
      (image_stem : ImageId → Option String) (id : ImageId) (h : History)
      → Conforms host name root
          (λ k image. (k ≡ known h) × (image.id ≡ id))
          h
          (load_image image_stem id)
  unfolding load_image Permits
  load_image_lem image_stem id h = step (read_image id) _ tt (λ image.
      check (map_err EngineError.state (validate_image_schema (image_stem id) image)) _ (λ _ _.
        check_not (image.id != id) (EngineError.state identity_mismatch) _
          (λ e. finishes image (refl, eq_of_not _ _ e))))

  -- What the first record is made of is that of this installation, provider and state root.
  intent-IsLocal :
      (add_seconds : ℕ → ℕ → ℕ) (i : Intent)
      → i.spec.provider ≡ some name
      → i.variant.provider ≡ name
      → i.image.id ≡ i.spec.image
      → IsLocal host name root i.install (first_record host file_stem name root add_seconds i)
  unfolding first_record new_ownership from_variant HasIdentity
  intent-IsLocal add_seconds i requested image_provider image = record {
    installation = refl;
    provider = refl;
    requested = requested;
    image_provider = image_provider;
    image = sym image;
    object_name = refl;
    identity = tt;
    schema = refl;
    marker = refl;
    configuration = same_path _;
    overlay = same_path _;
  }

  -- Where the text of a UUID reads back as it and a path equals itself: on every path of
  -- `create_cell_with_id`, whatever each call answers, every call is permitted: the overlay is
  -- created, the virtual machine created, claimed and configured only under the lock, the
  -- installation and the prepared runtime, for a stored record of this installation in the phase
  -- of that step; the first two only while the name is reported free, the last two only on a
  -- proven fresh virtual machine. Where it succeeds, the record is stored as stopped and ready
  -- with the id and the request asked for, belongs to the installation, and the last snapshot is
  -- one of its own isolated virtual machine.
  pub create_cell_with_id-Conforms :
      (add_seconds : ℕ → ℕ → ℕ) (image_stem : ImageId → Option String) (spec : CellSpec)
      (id : CellId) (job : Option JobCorrelation)
      → Creates host file_stem name root canonical same_path id spec []
          (create_cell_with_id host file_stem name root add_seconds image_stem spec id job)
  unfolding create_cell_with_id Permits first_record
  create_cell_with_id-Conforms add_seconds image_stem spec id job =
      bind (require_provider_available name) _ (available_lem []) (λ _ h0 e0.
        check (validate_cell_spec spec name) _ (λ _ valid. step acquire_mutation_lock _ tt (λ _.
          bind (load_image image_stem spec.image) _ (load_image_lem image_stem spec.image _)
            (λ image h1 (e1, same). check (provider_variant image name) _ (λ variant only.
              step (verify_registered_image variant) _ tt (λ _.
                step create_installation _ tt (λ install.
                  step acquire_installation_authority _ tt (λ held.
                    check_not (install != held) ownership_not_proven _ (λ agree. step now _ tt (λ t.
                      step new_uuid _ tt (λ operation.
                        let i : Intent = record {
                          id = id;
                          spec = spec;
                          image = image;
                          variant = variant;
                          job = job;
                          install = install;
                          operation = operation;
                          created = t;
                        } in
                        begin_create_lem host file_stem name root canonical same_path install
                          (first_record host file_stem name root add_seconds i) _
                          (ap (λ k. k.locked) e1) (ap some (sym (eq_of_not install held agree)))
                          (intent-IsLocal add_seconds i
                            (validate_cell_spec-IsBounded spec name valid).1
                            (provider_variant_lem image variant only) same)
                          refl refl)))))))))))
