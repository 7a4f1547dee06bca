-- ===== src/Program.antt =====
-- The engine's methods as programs over what they call outside themselves: the provider, the files
-- of the state store, the clock. A program is a tree that branches on each answer, so a statement
-- about every path of the tree holds for every provider, every failing write and every other
-- process that changes the files between two calls. `Result` and `?` are those of the errors.
pub mod Logic
pub mod Paths
pub mod Yields
use vm_cell_manager.Prelude.{ℕ, String, Bool, Option, List, Result, ok, err}
use vm_cell_manager.Host.{Uuid}
use vm_cell_manager.Image.{ImageId, ImageVariant, ImageRecord}
use vm_cell_manager.Cell.{CellId, CellRecord}
use vm_cell_manager.Capability.{ProviderProbe}
use vm_cell_manager.Provider.{
  ProviderVm, ProviderVmIdentity, ProviderImageInfo, VmLookup, CreateOverlayRequest,
  CreateVmRequest, ClaimVmRequest, ConfigureVmRequest, MutationAuthority,
}
use vm_cell_manager.Guest.{GuestOperationRecord}
use vm_cell_manager.Engine.Errors.{EngineError}

-- What a method calls. The state store's calls come first, each with the file or lock it touches.
pub data Op : Type 0 where
  acquire_mutation_lock validate_root : Op
  read_cell : CellId → Op
  read_cells : Op
  write_cell : CellRecord → Op
  read_image : ImageId → Op
  verify_registered_image : ImageVariant → Op
  validate_parent_identity : String → Op
  load_installation : Op
  create_installation : Op
  acquire_installation_authority : Op
  prepare_cell_runtime : CellId → String → String → Op
  pin_cell_runtime : CellId → String → String → Op
  remove_cell_runtime : CellId → Op
  runtime_entry_exists : CellId → Op
  list_guest_operations : Op
  now : Op
  new_uuid : Op
  probe : Op
  inspect_vm : VmLookup → Op
  create_overlay : MutationAuthority → CreateOverlayRequest → Op
  create_vm : MutationAuthority → CreateVmRequest → Op
  claim_vm : MutationAuthority → ClaimVmRequest → Op
  configure_vm : MutationAuthority → ConfigureVmRequest → Op
  start_vm : MutationAuthority → ProviderVm → Op
  stop_vm : MutationAuthority → ProviderVm → Op
  remove_vm : MutationAuthority → ProviderVm → Op

-- What a call that succeeds answers.
abbrev pub Answer : Op → Type 0
Answer acquire_mutation_lock = Unit {0}
Answer validate_root = Unit {0}
Answer (read_cell _) = CellRecord
Answer read_cells = List (Option String × CellRecord)
Answer (write_cell _) = Unit {0}
Answer (read_image _) = ImageRecord
Answer (verify_registered_image _) = Unit {0}
Answer (validate_parent_identity _) = Unit {0}
Answer load_installation = Uuid
Answer create_installation = Uuid
Answer acquire_installation_authority = Uuid
Answer (prepare_cell_runtime _ _ _) = Unit {0}
Answer (pin_cell_runtime _ _ _) = Unit {0}
Answer (remove_cell_runtime _) = Unit {0}
Answer (runtime_entry_exists _) = Bool
Answer list_guest_operations = List GuestOperationRecord
Answer now = ℕ
Answer new_uuid = Uuid
Answer probe = ProviderProbe
Answer (inspect_vm _) = Option ProviderVm
Answer (create_overlay _ _) = ProviderImageInfo
Answer (create_vm _ _) = ProviderVmIdentity
Answer (claim_vm _ _) = ProviderVm
Answer (configure_vm _ _) = ProviderVm
Answer (start_vm _ _) = Unit {0}
Answer (stop_vm _ _) = Unit {0}
Answer (remove_vm _ _) = Unit {0}

abbrev pub Reply : Op → Type 0
Reply op = Result EngineError (Answer op)

pub data Program (A : Type 0) : Type 0 where
  finish : Result EngineError A → Program A
  call : (op : Op) → (Reply op → Program A) → Program A

infixl 5 ◌>>=◌ ◌>>◌
abbrev pub ◌>>=◌ : {A B : Type 0} → Program A → (A → Program B) → Program B
finish (ok a) >>= f = f a
finish (err e) >>= f = finish (err e)
call op k >>= f = call op (λ reply. k reply >>= f)

abbrev pub ◌>>◌ : {A B : Type 0} → Program A → Program B → Program B
m >> n = m >>= λ _. n

-- One call, with `?`.
abbrev pub perform : (op : Op) → Program (Answer op)
perform op = call op finish

-- One call without `?`, whose outcome the method inspects.
abbrev pub attempt : (op : Op) → Program (Reply op)
attempt op = call op (λ reply. finish (ok reply))

abbrev pub pure : {A : Type 0} → A → Program A
pure a = finish (ok a)

abbrev pub fail : {A : Type 0} → EngineError → Program A
fail e = finish (err e)

-- A check that calls nothing, with `?`.
abbrev pub lift : {A : Type 0} → Result EngineError A → Program A
lift r = finish r

-- A method whose outcome the caller inspects.
abbrev pub catch : {A : Type 0} → Program A → Program (Result EngineError A)
catch (finish r) = finish (ok r)
catch (call op k) = call op (λ reply. catch (k reply))
