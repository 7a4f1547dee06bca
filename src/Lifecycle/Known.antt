-- ===== src/Lifecycle/Known.antt =====
-- What the calls made so far tell a method: the lock it holds, the installation it has pinned, the
-- record that the state store is known to hold, the pinned runtime, the last snapshot of the
-- provider's virtual machine, the id that the provider last reported without one, and the name that it
-- last reported free.
pub mod Locked
use vm_cell_manager.Prelude.{
  ◌≡◌, String, Bool, true, false, Option, none, some, [], ◌∷◌, Result, ok, err,
}
use vm_cell_manager.Host.{Uuid}
use vm_cell_manager.Cell.{CellId, CellRecord}
use vm_cell_manager.Provider.{ProviderVm, by_id, by_name}
use vm_cell_manager.Program.{
  Op, Reply, acquire_mutation_lock, read_cell, write_cell, acquire_installation_authority,
  prepare_cell_runtime, pin_cell_runtime, remove_cell_runtime, inspect_vm, create_vm, claim_vm,
  configure_vm, start_vm, stop_vm, remove_vm,
}
use vm_cell_manager.Program.Logic.{History}

pub record Known : Type 0 where
  pub locked : Bool
  pub installation : Option Uuid
  pub durable : Option CellRecord
  pub pinned : Option (CellId × String × String)
  pub seen : Option ProviderVm
  pub missing : Option String
  pub vacant : Option String

abbrev pub nothing : Known
nothing = record {
  locked = false;
  installation = none;
  durable = none;
  pinned = none;
  seen = none;
  missing = none;
  vacant = none;
}

-- A failing write may leave either record. A call that changes the virtual machine makes the
-- snapshot old.
abbrev pub learn : (op : Op) → Reply op → Known → Known
learn acquire_mutation_lock (ok _) k = record k { locked = true }
learn acquire_installation_authority (ok i) k = record k { installation = some i }
learn (read_cell _) (ok r) k = record k { durable = some r }
learn (write_cell r) (ok _) k = record k { durable = some r }
learn (write_cell r) (err _) k = record k { durable = none }
learn (prepare_cell_runtime id c o) (ok _) k = record k { pinned = some (id, c, o) }
learn (pin_cell_runtime id c o) (ok _) k = record k { pinned = some (id, c, o) }
learn (remove_cell_runtime _) _ k = record k { pinned = none }
learn (inspect_vm (by_id _)) (ok (some vm)) k = record k { seen = some vm; missing = none }
learn (inspect_vm (by_id id)) (ok none) k = record k { seen = none; missing = some id }
learn (inspect_vm (by_id _)) (err _) k = record k { seen = none; missing = none }
learn (inspect_vm (by_name n)) (ok none) k = record k { vacant = some n }
learn (inspect_vm (by_name _)) _ k = record k { vacant = none }
learn (create_vm _ _) _ k = record k { missing = none; vacant = none }
learn (claim_vm _ _) (ok vm) k = record k { seen = some vm }
learn (claim_vm _ _) (err _) k = record k { seen = none }
learn (configure_vm _ _) (ok vm) k = record k { seen = some vm }
learn (configure_vm _ _) (err _) k = record k { seen = none }
learn (start_vm _ _) _ k = record k { seen = none }
learn (stop_vm _ _) _ k = record k { seen = none }
learn (remove_vm _ _) _ k = record k { seen = none }
learn _ _ k = k

abbrev pub known : History → Known
known [] = nothing
known (e ∷ h) = learn e.op e.reply (known h)

-- A record without the code of its last error, the one field that a load or a save may change.
abbrev pub forget_error : CellRecord → CellRecord
forget_error r = record r { last_error = none }

-- The state store holds the record, as far as the last read or write tells.
unfoldable pub IsStored : Known → CellRecord → Type 0
IsStored k r = (s : CellRecord) × (k.durable ≡ some s) × (forget_error s ≡ forget_error r)
