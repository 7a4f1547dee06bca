-- ===== src/Lifecycle/Known/Locked.antt =====
-- A method keeps the mutation lock of src/state/mod.rs once it has it.
use vm_cell_manager.Prelude.{◌≡◌, true, refl, none, some, ok, err, Result}
use vm_cell_manager.Provider.{by_id, by_name}
use vm_cell_manager.Program.{
  Op, Reply, Program, acquire_mutation_lock, validate_root, read_cell, read_cells, write_cell,
  read_image, verify_registered_image, validate_parent_identity, load_installation,
  create_installation, acquire_installation_authority, prepare_cell_runtime, pin_cell_runtime,
  remove_cell_runtime, runtime_entry_exists, list_guest_operations, now, new_uuid, probe,
  inspect_vm, create_overlay, create_vm, claim_vm, configure_vm, start_vm, stop_vm, remove_vm,
}
use vm_cell_manager.Program.Logic.{History}
use vm_cell_manager.Program.Paths.{PathTo, ended, replied}
use vm_cell_manager.Engine.Errors.{EngineError}
use vm_cell_manager.Lifecycle.Known.{Known, known, learn}

abbrev pub IsLocked : Known → Type 0
IsLocked k = k.locked ≡ true

-- No call gives the lock up.
pub learn-IsLocked :
    (op : Op) (reply : Reply op) (k : Known) → IsLocked k → IsLocked (learn op reply k)
learn-IsLocked acquire_mutation_lock (ok _) k l = refl
learn-IsLocked acquire_mutation_lock (err _) k l = l
learn-IsLocked acquire_installation_authority (ok i) k l = l
learn-IsLocked acquire_installation_authority (err _) k l = l
learn-IsLocked (read_cell _) (ok r) k l = l
learn-IsLocked (read_cell _) (err _) k l = l
learn-IsLocked (write_cell r) (ok _) k l = l
learn-IsLocked (write_cell r) (err _) k l = l
learn-IsLocked (prepare_cell_runtime _ _ _) (ok _) k l = l
learn-IsLocked (prepare_cell_runtime _ _ _) (err _) k l = l
learn-IsLocked (pin_cell_runtime _ _ _) (ok _) k l = l
learn-IsLocked (pin_cell_runtime _ _ _) (err _) k l = l
learn-IsLocked (remove_cell_runtime _) _ k l = l
learn-IsLocked (inspect_vm (by_id _)) (ok (some vm)) k l = l
learn-IsLocked (inspect_vm (by_id _)) (ok none) k l = l
learn-IsLocked (inspect_vm (by_id _)) (err _) k l = l
learn-IsLocked (inspect_vm (by_name n)) (ok none) k l = l
learn-IsLocked (inspect_vm (by_name _)) (ok (some _)) k l = l
learn-IsLocked (inspect_vm (by_name _)) (err _) k l = l
learn-IsLocked (create_vm _ _) _ k l = l
learn-IsLocked (claim_vm _ _) (ok vm) k l = l
learn-IsLocked (claim_vm _ _) (err _) k l = l
learn-IsLocked (configure_vm _ _) (ok vm) k l = l
learn-IsLocked (configure_vm _ _) (err _) k l = l
learn-IsLocked (start_vm _ _) _ k l = l
learn-IsLocked (stop_vm _ _) _ k l = l
learn-IsLocked (remove_vm _ _) _ k l = l
learn-IsLocked (create_overlay _ _) _ k l = l
learn-IsLocked validate_root _ k l = l
learn-IsLocked read_cells _ k l = l
learn-IsLocked (read_image _) _ k l = l
learn-IsLocked (verify_registered_image _) _ k l = l
learn-IsLocked (validate_parent_identity _) _ k l = l
learn-IsLocked load_installation _ k l = l
learn-IsLocked create_installation _ k l = l
learn-IsLocked (runtime_entry_exists _) _ k l = l
learn-IsLocked list_guest_operations _ k l = l
learn-IsLocked now _ k l = l
learn-IsLocked new_uuid _ k l = l
learn-IsLocked probe _ k l = l

pub PathTo-IsLocked :
    {A : Type 0} {m : Program A} {h h' : History} {r : Result EngineError A}
    → PathTo m h h' r
    → IsLocked (known h)
    → IsLocked (known h')
PathTo-IsLocked ended l = l
PathTo-IsLocked {h = h} (replied op k reply p) l =
    PathTo-IsLocked p (learn-IsLocked op reply (known h) l)
