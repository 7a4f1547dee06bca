-- ===== src/Engine/Accepted.antt =====
-- `prove_ownership` of src/engine/mod.rs against the provider's own check of a mutation in
-- src/providers/mod.rs.
use vm_cell_manager.Prelude.{String, true, ◌≡◌, nat_eq, string_eq, option_eq}
use vm_cell_manager.Host.{Host}
use vm_cell_manager.Cell.{CellRecord, cell_phase_eq}
use vm_cell_manager.Provider.Authority.{Guards, provider_paths_equal}

-- The guards that the engine takes for a record, while nothing has moved.
pub record GuardsMatch (host : Host) (canonical : String → String) (g : Guards) (r : CellRecord)
    : Type 0 where
  pub root : g.root_unchanged ≡ true
  pub runtime : g.runtime_unchanged ≡ true
  pub install_id : r.ownership.install_id ≡ g.install_id
  pub cell_id : r.id ≡ g.cell_id
  pub configuration :
      provider_paths_equal host canonical r.ownership.configuration_path g.configuration_path ≡ true
  pub overlay : provider_paths_equal host canonical r.ownership.overlay_path g.overlay_path ≡ true
