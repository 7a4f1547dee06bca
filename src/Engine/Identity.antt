-- ===== src/Engine/Identity.antt =====
-- The proofs of identity of src/engine/mod.rs: what a provider's snapshot of a virtual machine must
-- agree with in the durable record before the engine acts on it. A reason is one of the source's
-- texts.
use vm_cell_manager.Prelude.{
  String, Bool, not, Option, none, some, List, [], ◌∷◌, ◌!=◌, ◌&&◌, ◌||◌, nat_eq, string_eq,
  option_eq, if◌then◌else◌, ltb, Result, ok, err, ◌>>=◌, ◌>>◌, reject_if,
}
use vm_cell_manager.Host.{Uuid, Host}
use vm_cell_manager.Cell.{
  cell_state_eq, CellRecord, ProviderObjectIdentity, cell_object_name, cell_marker, ◌<>◌,
  ownership_marker_schema,
}
use vm_cell_manager.Provider.{ProviderVm, off, power_state_eq}
use vm_cell_manager.Provider.Authority.{single_disk}
use vm_cell_manager.Engine.Errors.{EngineError, ownership_not_proven}

pub data Reason : Type 0 where
  provider_id_mismatch recorded_name_mismatch provider_id_not_recorded : Reason
  ownership_name_mismatch ownership_marker_mismatch unexpected_ownership_marker : Reason
  configuration_path_mismatch attached_disk_mismatch networking_not_disabled : Reason
  cpu_mismatch memory_mismatch unexpected_network_adapters not_off : Reason
  object_after_tombstone name_occupied_after_tombstone runtime_after_tombstone : Reason
  local_ownership : EngineError → Reason

-- `if test { reasons.push(reason) }`
abbrev pub push_if : Bool → Reason → List Reason → List Reason
push_if test reason reasons = if test then reason ∷ reasons else reasons

-- The `match` on the recorded identity that the three proofs begin with.
unfoldable pub identity_reasons :
    Option ProviderObjectIdentity → ProviderVm → List Reason → List Reason
identity_reasons none vm rest = provider_id_not_recorded ∷ rest
identity_reasons (some identity) vm rest =
    if identity.id != vm.id
    then provider_id_mismatch ∷ rest
    else if identity.name != vm.name
    then recorded_name_mismatch ∷ rest
    else rest

module _ (host : Host) where
  unfoldable pub disk_mismatch : ProviderVm → CellRecord → Bool
  disk_mismatch vm r = not (single_disk host.paths_equal vm.attached_disks r.ownership.overlay_path)

  unfoldable pub ownership_drift : CellRecord → ProviderVm → List Reason
  unfolding identity_reasons disk_mismatch
  ownership_drift r vm = identity_reasons r.provider_object vm (
      push_if (vm.name != r.ownership.provider_object_name) ownership_name_mismatch (
        push_if (vm.ownership_marker != r.ownership.provider_marker) ownership_marker_mismatch (
          push_if (not (host.paths_equal vm.configuration_path r.ownership.configuration_path))
            configuration_path_mismatch
            (push_if (disk_mismatch vm r) attached_disk_mismatch (
              push_if (vm.network_adapter_count != 0) networking_not_disabled (
                push_if (vm.cpu_count != r.spec.cpu_count) cpu_mismatch
                  (push_if (vm.memory_mib != r.spec.memory_mib) memory_mismatch [])))))))

  -- The end of the three proofs.
  abbrev pub proven_if_none : List Reason → Result EngineError (Unit {0})
  proven_if_none [] = ok tt
  proven_if_none (_ ∷ _) = err ownership_not_proven

  unfoldable pub prove_ownership : CellRecord → ProviderVm → Result EngineError (Unit {0})
  unfolding ownership_drift
  prove_ownership r vm = proven_if_none (ownership_drift r vm)

  unfoldable pub creation_reasons : CellRecord → ProviderVm → Bool → List Reason
  unfolding identity_reasons disk_mismatch
  creation_reasons r vm require_marker = identity_reasons r.provider_object vm (
      push_if (vm.name != r.ownership.provider_object_name) ownership_name_mismatch (
        push_if (require_marker && vm.ownership_marker != r.ownership.provider_marker)
          ownership_marker_mismatch
          (push_if
            (not require_marker
              && (vm.ownership_marker != "" && vm.ownership_marker != r.ownership.provider_marker))
            unexpected_ownership_marker
            (push_if (not (host.paths_equal vm.configuration_path r.ownership.configuration_path))
              configuration_path_mismatch
              (push_if (disk_mismatch vm r) attached_disk_mismatch (
                push_if (vm.memory_mib != r.spec.memory_mib) memory_mismatch (
                  push_if (ltb 1 vm.network_adapter_count) unexpected_network_adapters
                    (push_if (vm.power_state != off) not_off []))))))))

  unfoldable pub prove_creation_identity :
      CellRecord → ProviderVm → Bool → Result EngineError (Unit {0})
  unfolding creation_reasons
  prove_creation_identity r vm require_marker =
      proven_if_none (creation_reasons r vm require_marker)

  unfoldable pub destroy_reasons : CellRecord → ProviderVm → List Reason
  unfolding identity_reasons disk_mismatch
  destroy_reasons r vm = identity_reasons r.provider_object vm (
      push_if (vm.name != r.ownership.provider_object_name) ownership_name_mismatch (
        push_if (vm.ownership_marker != r.ownership.provider_marker) ownership_marker_mismatch (
          push_if (not (host.paths_equal vm.configuration_path r.ownership.configuration_path))
            configuration_path_mismatch
            (push_if (disk_mismatch vm r) attached_disk_mismatch
              (push_if (vm.memory_mib != r.spec.memory_mib) memory_mismatch [])))))

  unfoldable pub prove_destroy_identity : CellRecord → ProviderVm → Result EngineError (Unit {0})
  unfolding destroy_reasons
  prove_destroy_identity r vm = proven_if_none (destroy_reasons r vm)

  -- The check of a recorded provider identity within `validate_local_ownership_record`.
  unfoldable pub validate_recorded_identity :
      CellRecord → Option ProviderObjectIdentity → Result EngineError (Unit {0})
  validate_recorded_identity r none = ok tt
  validate_recorded_identity r (some identity) = do
    id ← elim (host.parse_uuid identity.id) [ none ↦ err ownership_not_proven | some u ↦ ok u ]
    reject_if (host.uuid_text id != identity.id) ownership_not_proven
    reject_if (identity.name != r.ownership.provider_object_name) ownership_not_proven

  -- The paths of a cell under the state root `root`.
  unfoldable pub cell_runtime_root : String → Uuid → String
  cell_runtime_root root id = host.join (host.join root "runtime") (host.uuid_text id)

  unfoldable pub cell_overlay_path_for : String → Uuid → String → String
  cell_overlay_path_for root id disk_format =
      host.join (cell_runtime_root root id) ("cell." <> disk_format)

  unfoldable pub cell_configuration_path_for : String → Uuid → String → String
  cell_configuration_path_for root id provider = host.join (cell_runtime_root root id) provider

  -- The tests of `validate_local_ownership_record`, `name` being the provider's name.
  abbrev pub wrong_provider : String → CellRecord → Bool
  wrong_provider name r =
      r.provider != name || (r.spec.provider != some name || r.image.provider != name)

  abbrev pub wrong_marker : CellRecord → Bool
  wrong_marker r =
      r.ownership.provider_marker
      != cell_marker host r.ownership.install_id r.id r.ownership.operation_id

  abbrev pub outside_root : String → String → CellRecord → Bool
  outside_root name root r =
      not (
        host.paths_equal r.ownership.configuration_path
          (cell_configuration_path_for root r.id name))
      || not (
          host.paths_equal r.ownership.overlay_path
            (cell_overlay_path_for root r.id r.image.disk_format))

  unfoldable pub validate_local_ownership_record :
      String → String → CellRecord → Uuid → Result EngineError (Unit {0})
  validate_local_ownership_record name root r current = do
    reject_if (r.ownership.install_id != current) ownership_not_proven
    reject_if (wrong_provider name r) ownership_not_proven
    reject_if (r.spec.image != r.image.image_id) ownership_not_proven
    reject_if (r.ownership.provider_object_name != cell_object_name host r.id) ownership_not_proven
    validate_recorded_identity r r.provider_object
    reject_if (r.ownership.schema_version != ownership_marker_schema) ownership_not_proven
    reject_if (wrong_marker r) ownership_not_proven
    reject_if (outside_root name root r) ownership_not_proven
