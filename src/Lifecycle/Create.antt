-- ===== src/Lifecycle/Create.antt =====
-- `create_cell_with_id` of src/engine/mod.rs: the creation of a cell, with the durable record of
-- each step before the next one.
pub mod Held
pub mod Making
pub mod Identified
pub mod Begun
pub mod Created
use vm_cell_manager.Prelude.{
  ℕ, String, Bool, true, false, not, Option, none, some, List, [], ◌∷◌, ◌+◌, ◌==◌, ◌!=◌, ◌||◌,
  nat_eq, string_eq, filter, ok_or, map_err, Result, ok, err, reject_if, is_some, if◌then◌else◌,
}
use vm_cell_manager.Host.{Uuid, Host}
use vm_cell_manager.Image.{ImageId, ImageVariant, ImageRecord, from_variant}
use vm_cell_manager.Cell.{
  CellId, CellState, creating, stopped, CellPhase, intent_recorded, overlay_created,
  provider_object_created, provider_object_claimed, ready, CellSpec, CellRecord, CellOwnership,
  ProviderObjectIdentity, JobCorrelation, schema_version_for_job, new_ownership,
}
use vm_cell_manager.Provider.{
  ProviderVm, ProviderImageInfo, ProviderVmIdentity, CreateOverlayRequest, CreateVmRequest,
  ClaimVmRequest, ConfigureVmRequest, off, power_state_eq, by_id, by_name, new_authority,
}
use vm_cell_manager.Engine.Errors.{
  EngineError, image_integrity, ownership_not_proven, provider_drift, unexpected_power_state,
}
use vm_cell_manager.Engine.Request.{validate_cell_spec}
use vm_cell_manager.Engine.Identity.{
  prove_ownership, prove_creation_identity, cell_configuration_path_for, cell_overlay_path_for,
}
use vm_cell_manager.Program.{
  Op, Answer, Reply, Program, finish, call, ◌>>=◌, ◌>>◌, perform, attempt, pure, lift, fail,
  acquire_mutation_lock, load_installation, create_installation, acquire_installation_authority,
  verify_registered_image, validate_parent_identity, prepare_cell_runtime, inspect_vm,
  create_overlay, create_vm, claim_vm, configure_vm, now, new_uuid,
}
use vm_cell_manager.Store.Files.{save_cell, load_image}
use vm_cell_manager.Lifecycle.{fail_if, moved, require_provider_available, fail_record}

-- The `match` of `provider_variant` on the variants of the provider.
abbrev pub only_variant : List ImageVariant → Result EngineError ImageVariant
only_variant [] = err image_integrity
only_variant (variant ∷ []) = ok variant
only_variant (variant ∷ _ ∷ _) = err image_integrity

unfoldable pub provider_variant : ImageRecord → String → Result EngineError ImageVariant
provider_variant image provider = only_variant (filter (λ v. v.provider == provider) image.variants)

abbrev pub lacks_parent : Host → Option String → String → Bool
lacks_parent host none parent = true
lacks_parent host (some path) parent = not (host.paths_equal path parent)

unfoldable pub validate_overlay :
    Host → CellRecord → ProviderImageInfo → Result EngineError (Unit {0})
validate_overlay host r info =
    reject_if
      (not (host.paths_equal r.ownership.overlay_path info.path)
        || (not (host.eq_ignore_case info.disk_format r.image.disk_format)
            || (not (
                  host.eq_ignore_case info.disk_type "differencing"
                  || host.eq_ignore_case info.disk_type "overlay")
                || lacks_parent host info.parent_path r.image.path)))
      provider_drift

-- The canonical text of the provider's id, under the name that was asked for.
abbrev pub canonical_identity :
    Host → CellRecord → String → Option Uuid → Result EngineError ProviderObjectIdentity
canonical_identity host r object_name none = err provider_drift
canonical_identity host r object_name (some u) =
    if object_name != r.ownership.provider_object_name
    then err provider_drift
    else ok (record { id = host.uuid_text u; name = object_name })

unfoldable pub normalize_provider_identity :
    Host → CellRecord → ProviderVmIdentity → Result EngineError ProviderObjectIdentity
normalize_provider_identity host r identity =
    canonical_identity host r identity.name (host.parse_uuid identity.id)

-- `add_seconds` is the sum of a time and a `Duration` of chrono.
abbrev pub expiry : (ℕ → ℕ → ℕ) → ℕ → Option ℕ → Option ℕ
expiry add_seconds created none = none
expiry add_seconds created (some ttl) = some (add_seconds created ttl)

-- What the first record of a cell is made of.
pub record Intent : Type 0 where
  pub id : CellId
  pub spec : CellSpec
  pub image : ImageRecord
  pub variant : ImageVariant
  pub job : Option JobCorrelation
  pub install : Uuid
  pub operation : Uuid
  pub created : ℕ

module _ (host : Host) (file_stem : Uuid → Option String) (name root : String) where
  abbrev pub intent_ownership : Intent → CellOwnership
  intent_ownership i =
      new_ownership host i.install i.id i.operation
        (cell_configuration_path_for host root i.id name)
        (cell_overlay_path_for host root i.id i.variant.disk_format)

  unfoldable pub first_record : (ℕ → ℕ → ℕ) → Intent → CellRecord
  first_record add_seconds i = record {
    schema_version = schema_version_for_job i.job;
    id = i.id;
    provider = name;
    spec = i.spec;
    image = from_variant i.image.id i.image.guest_os i.variant;
    ownership = intent_ownership i;
    provider_object = none;
    state = creating;
    phase = intent_recorded;
    created_at = i.created;
    updated_at = i.created;
    expires_at = expiry add_seconds i.created i.spec.ttl_seconds;
    last_error = none;
    job = i.job;
  }

  -- `match outcome { Ok(a) => .., Err(e) => return self.fail_record(record, e) }`
  abbrev pub or_fail :
      {A : Type 0}
      → CellRecord
      → Result EngineError A
      → (A → Program CellRecord)
      → Program CellRecord
  or_fail r (ok a) k = k a
  or_fail r (err e) k = fail_record host file_stem name root r e

  unfoldable pub finish_create : CellRecord → Program CellRecord
  finish_create r = do
    t ← perform now
    save_cell host file_stem (moved r stopped ready t)
    pure (moved r stopped ready t)

  unfoldable pub configure_new : CellRecord → ProviderVm → Program CellRecord
  configure_new r vm = do
    configured ←
        attempt
          (configure_vm (new_authority r) (record { expected = vm; cpu_count = r.spec.cpu_count }))
    or_fail r configured (λ after. or_fail r (prove_ownership host r after) (λ _. finish_create r))

  unfoldable pub record_claimed : CellRecord → ProviderVm → Program CellRecord
  record_claimed r vm = do
    t ← perform now
    save_cell host file_stem (moved r r.state provider_object_claimed t)
    configure_new (moved r r.state provider_object_claimed t) vm

  unfoldable pub claim_off : CellRecord → ProviderVm → Program CellRecord
  claim_off r vm = do
    claimed ← attempt (
        claim_vm (new_authority r)
          (record { expected = vm; ownership_marker = r.ownership.provider_marker }))
    or_fail r claimed (λ after.
        or_fail r (prove_creation_identity host r after true) (λ _. record_claimed r after))

  unfoldable pub claim_new : CellRecord → ProviderVm → Program CellRecord
  claim_new r vm = or_fail r (prove_creation_identity host r vm false) (λ _.
      or_fail r (reject_if (vm.power_state != off) (unexpected_power_state vm.power_state))
        (λ _. claim_off r vm))

  unfoldable pub inspect_created : CellRecord → String → Program CellRecord
  inspect_created r id = do
    found ← perform (inspect_vm (by_id id))
    or_fail r (ok_or provider_drift found) (claim_new r)

  -- The record with the provider's identity.
  abbrev pub identified : CellRecord → ProviderObjectIdentity → ℕ → CellRecord
  identified r identity t = record r {
    provider_object = some identity;
    phase = provider_object_created;
    updated_at = t;
  }

  unfoldable pub record_created : CellRecord → ProviderObjectIdentity → Program CellRecord
  record_created r identity = do
    t ← perform now
    save_cell host file_stem (identified r identity t)
    inspect_created (identified r identity t) identity.id

  abbrev pub create_request : CellRecord → CreateVmRequest
  create_request r = record {
    name = r.ownership.provider_object_name;
    configuration_path = r.ownership.configuration_path;
    overlay_path = r.ownership.overlay_path;
    parent_path = r.image.path;
    memory_mib = r.spec.memory_mib;
    cpu_count = r.spec.cpu_count;
    accelerator = r.spec.accelerator;
    allow_tcg = r.spec.allow_tcg;
  }

  unfoldable pub create_object : CellRecord → Program CellRecord
  create_object r = do
    created ← attempt (create_vm (new_authority r) (create_request r))
    or_fail r created
        (λ identity. or_fail r (normalize_provider_identity host r identity) (record_created r))

  unfoldable pub record_overlay : CellRecord → Program CellRecord
  record_overlay r = do
    t ← perform now
    save_cell host file_stem (moved r r.state overlay_created t)
    create_object (moved r r.state overlay_created t)

  -- The parent is checked again once the overlay is there.
  unfoldable pub check_overlay : CellRecord → ProviderImageInfo → Program CellRecord
  check_overlay r info = do
    checked ← attempt (validate_parent_identity r.image.path)
    or_fail r checked (λ _. or_fail r (validate_overlay host r info) (λ _. record_overlay r))

  unfoldable pub make_overlay : CellRecord → Program CellRecord
  make_overlay r = do
    made ← attempt (
        create_overlay (new_authority r)
          (record { parent_path = r.image.path; overlay_path = r.ownership.overlay_path }))
    or_fail r made (check_overlay r)

  unfoldable pub check_parent : CellRecord → Program CellRecord
  check_parent r = do
    checked ← attempt (validate_parent_identity r.image.path)
    or_fail r checked (λ _. make_overlay r)

  unfoldable pub check_collision : CellRecord → Program CellRecord
  check_collision r = do
    existing ← perform (inspect_vm (by_name r.ownership.provider_object_name))
    or_fail r (reject_if (is_some existing) ownership_not_proven) (λ _. check_parent r)

  -- From the first durable record on.
  unfoldable pub begin_create : CellRecord → Program CellRecord
  begin_create r = do
    save_cell host file_stem r
    prepared ←
        attempt (prepare_cell_runtime r.id r.ownership.configuration_path r.ownership.overlay_path)
    or_fail r prepared (λ _. check_collision r)

  unfoldable pub create_cell_with_id :
      (ℕ → ℕ → ℕ)
      → (ImageId → Option String)
      → CellSpec
      → CellId
      → Option JobCorrelation
      → Program CellRecord
  create_cell_with_id add_seconds image_stem spec id job = do
    require_provider_available name
    lift (validate_cell_spec spec name)
    perform acquire_mutation_lock
    image ← load_image image_stem spec.image
    variant ← lift (provider_variant image name)
    perform (verify_registered_image variant)
    install ← perform create_installation
    held ← perform acquire_installation_authority
    fail_if (install != held) ownership_not_proven
    t ← perform now
    operation ← perform new_uuid
    begin_create (
        first_record add_seconds (record {
          id = id;
          spec = spec;
          image = image;
          variant = variant;
          job = job;
          install = install;
          operation = operation;
          created = t;
        }))
