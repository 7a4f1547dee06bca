-- ===== src/Provider/Authority.antt =====
-- The checks of `ProviderMutationAuthority` in src/providers/mod.rs, which a provider makes on each
-- mutation that the engine asks for, as they are compiled outside Windows.
use vm_cell_manager.Prelude.{
  String, Bool, false, not, some, List, [], ◌∷◌, ◌==◌, ◌!=◌, ◌&&◌, ◌||◌, nat_eq, string_eq, bool_eq,
  option_eq, ltb, Result, ◌>>◌, reject_if,
}
use vm_cell_manager.Cell.{CellId, ready, destroying, cell_phase_eq, cell_object_name}
use vm_cell_manager.Host.{Uuid, Host}
use vm_cell_manager.Provider.{
  MutationAuthority, ProviderVm, CreateOverlayRequest, CreateVmRequest, ClaimVmRequest,
  ConfigureVmRequest, ProviderError, authority, off, power_state_eq,
}

-- The identities that the authority's borrowed guards pin, and whether the guards of the state root
-- and of the runtime still match the file system.
pub record Guards : Type 0 where
  pub root_unchanged : Bool
  pub runtime_unchanged : Bool
  pub install_id : Uuid
  pub cell_id : CellId
  pub configuration_path : String
  pub overlay_path : String

-- `disks.len() != 1 || !same(&disks[0], path)`
abbrev pub single_disk : (String → String → Bool) → List String → String → Bool
single_disk same [] path = false
single_disk same (disk ∷ []) path = same disk path
single_disk same (disk ∷ _ ∷ _) path = false

-- `provider_paths_equal` outside Windows; `canonical` is `Path::canonicalize`, or the path as it is
-- where that fails.
unfoldable pub provider_paths_equal : Host → (String → String) → String → String → Bool
provider_paths_equal host canonical left right = host.paths_equal (canonical left) (canonical right)

module _ (host : Host) (canonical : String → String) (g : Guards) (a : MutationAuthority) where
  unfoldable pub validate_common : Result ProviderError (Unit {0})
  validate_common = do
    reject_if (not g.root_unchanged) authority
    reject_if (not g.runtime_unchanged) authority
    reject_if
        (a.provider_name == ""
          || (a.install_id != g.install_id
              || (a.cell_id != g.cell_id
                  || (not (
                        provider_paths_equal host canonical a.configuration_path
                          g.configuration_path)
                      || not (provider_paths_equal host canonical a.overlay_path g.overlay_path)))))
        authority

  unfoldable pub validate_overlay_request : CreateOverlayRequest → Result ProviderError (Unit {0})
  validate_overlay_request r = do
    validate_common
    reject_if
        (not (provider_paths_equal host canonical r.parent_path a.parent_image_path)
          || not (provider_paths_equal host canonical r.overlay_path a.overlay_path))
        authority

  unfoldable pub validate_create_request : CreateVmRequest → Result ProviderError (Unit {0})
  validate_create_request r = do
    validate_common
    reject_if
        (r.name != cell_object_name host a.cell_id
          || (not (provider_paths_equal host canonical r.configuration_path a.configuration_path)
              || (not (provider_paths_equal host canonical r.overlay_path a.overlay_path)
                  || (not (provider_paths_equal host canonical r.parent_path a.parent_image_path)
                      || (r.memory_mib != a.memory_mib
                          || (r.cpu_count != a.cpu_count
                              || (r.accelerator != a.accelerator
                                  || r.allow_tcg != a.allow_tcg)))))))
        authority

  unfoldable pub validate_vm : ProviderVm → Result ProviderError (Unit {0})
  validate_vm vm = do
    validate_common
    reject_if
        (vm.name != cell_object_name host a.cell_id
          || (a.provider_id != some vm.id
              || (vm.ownership_marker != a.provider_marker
                  || (not (
                        provider_paths_equal host canonical vm.configuration_path
                          a.configuration_path)
                      || (not (
                            single_disk (provider_paths_equal host canonical) vm.attached_disks
                              a.overlay_path)
                          || ((a.phase == ready || a.phase == destroying)
                              && (vm.network_adapter_count != 0
                                  || (vm.cpu_count != a.cpu_count
                                      || vm.memory_mib != a.memory_mib))))))))
        authority

  unfoldable pub validate_claim_request : ClaimVmRequest → Result ProviderError (Unit {0})
  validate_claim_request r = do
    validate_common
    reject_if
        (r.ownership_marker != a.provider_marker
          || (a.provider_id != some r.expected.id
              || (r.expected.name != cell_object_name host a.cell_id
                  || (not (
                        provider_paths_equal host canonical r.expected.configuration_path
                          a.configuration_path)
                      || (not (
                            single_disk (provider_paths_equal host canonical)
                              r.expected.attached_disks a.overlay_path)
                          || (r.expected.memory_mib != a.memory_mib
                              || (r.expected.ownership_marker != ""
                                  && r.expected.ownership_marker != a.provider_marker)))))))
        authority

  unfoldable pub validate_configure_request : ConfigureVmRequest → Result ProviderError (Unit {0})
  validate_configure_request r = do
    validate_common
    reject_if
        (r.cpu_count != a.cpu_count
          || (a.provider_id != some r.expected.id
              || (r.expected.name != cell_object_name host a.cell_id
                  || (r.expected.ownership_marker != a.provider_marker
                      || (not (
                            provider_paths_equal host canonical r.expected.configuration_path
                              a.configuration_path)
                          || (not (
                                single_disk (provider_paths_equal host canonical)
                                  r.expected.attached_disks a.overlay_path)
                              || (r.expected.memory_mib != a.memory_mib
                                  || (r.expected.power_state != off
                                      || ltb 1 r.expected.network_adapter_count))))))))
        authority
