-- ===== src/Lifecycle/Tests/Succeeds.antt =====
-- A platform in memory on which nothing fails, and the theorems there.
use vm_cell_manager.Prelude.{refl, true, some, [], ◌∷◌, ok, err}
use vm_cell_manager.Cell.{CellRecord, stopped, running, ready}
use vm_cell_manager.Provider.{ProviderVm, ProviderPowerState, ProviderError, off, by_id}
use vm_cell_manager.Engine.Errors.{provider}
use vm_cell_manager.Program.{
  acquire_mutation_lock, validate_root, read_cell, read_cells, write_cell, verify_registered_image,
  load_installation, acquire_installation_authority, pin_cell_runtime, now, inspect_vm, start_vm,
  stop_vm,
}
use vm_cell_manager.Program.Logic.{Platform}
use vm_cell_manager.Program.Yields.{Yields}
use vm_cell_manager.Store.{redact_cell_diagnostic}
use vm_cell_manager.Lifecycle.{moved}
use vm_cell_manager.Lifecycle.Single.{IsSingle}
use vm_cell_manager.Lifecycle.Power.{start_cell, stop_cell}
use vm_cell_manager.Lifecycle.Power.Succeeds.{AtRest, start_cell-Yields, stop_cell-Yields}
use vm_cell_manager.Lifecycle.Tests.{unary, stem_of, cell_two, vm_two, lifecycle_runs}

abbrev Pair : Type 0
Pair = CellRecord × ProviderVm

abbrev pair : Platform Pair
pair acquire_mutation_lock s = (ok tt, s)
pair validate_root s = (ok tt, s)
pair (read_cell _) s = (ok s.0, s)
pair read_cells s = (ok ((stem_of s.0.id, s.0) ∷ []), s)
pair (write_cell r) s = (ok tt, (r, s.1))
pair (verify_registered_image _) s = (ok tt, s)
pair load_installation s = (ok 1, s)
pair acquire_installation_authority s = (ok 1, s)
pair (pin_cell_runtime _ _ _) s = (ok tt, s)
pair now s = (ok 20, s)
pair (inspect_vm (by_id _)) s = (ok (some s.1), s)
pair (start_vm _ _) s = (ok tt, (s.0, record s.1 { power_state = ProviderPowerState.running }))
pair (stop_vm _ _) s = (ok tt, (s.0, record s.1 { power_state = off }))
pair op s = (err (provider ProviderError.unsupported), s)

abbrev put_record : CellRecord → Pair → Pair
put_record r s = (r, s.1)

abbrev set_power : ProviderPowerState → Pair → Pair
set_power p s = (s.0, record s.1 { power_state = p })

pair-IsSingle : IsSingle pair stem_of 1 20 (λ s. s.0) (λ s. s.1) put_record set_power
pair-IsSingle = record {
  lock = λ s. refl;
  root = λ s. refl;
  read = λ s. refl;
  files = λ s. refl;
  write = λ r s. refl;
  installation = λ s. refl;
  authority = λ s. refl;
  verify = λ v s. refl;
  pin = λ i c o s. refl;
  time = λ s. refl;
  inspect = λ s. refl;
  start = λ a vm s. refl;
  stop = λ a vm s. refl;
  put_stored = λ r s. refl;
  power_stored = λ p s. refl;
  power_machine = λ p s. refl;
}

two-AtRest : AtRest unary stem_of "qemu" "state" pair-IsSingle (cell_two, vm_two) stopped
unfolding lifecycle_runs
two-AtRest = record {
  supported = refl;
  state_is = refl;
  schema = refl;
  local = refl;
  proven = refl;
}

abbrev on_pair : Pair
on_pair = (
  record cell_two { state = running },
  record vm_two { power_state = ProviderPowerState.running },
)

on-AtRest : AtRest unary stem_of "qemu" "state" pair-IsSingle on_pair running
unfolding lifecycle_runs
on-AtRest = record { supported = refl; state_is = refl; schema = refl; local = refl; proven = refl }

start_cell-Yields_example :
    Yields pair
      (start_cell unary stem_of "qemu" "state" 2)
      (cell_two, vm_two)
      (record { cell_id = 2; state = running; changed = true })
      (put_record
        (redact_cell_diagnostic (moved (redact_cell_diagnostic cell_two) running ready 20))
        (set_power ProviderPowerState.running (cell_two, vm_two)))
start_cell-Yields_example =
    start_cell-Yields unary stem_of "qemu" "state" pair-IsSingle (cell_two, vm_two) two-AtRest refl

stop_cell-Yields_example :
    Yields pair
      (stop_cell unary stem_of "qemu" "state" 2)
      on_pair
      (record { cell_id = 2; state = stopped; changed = true })
      (put_record
        (redact_cell_diagnostic (moved (redact_cell_diagnostic on_pair.0) stopped ready 20))
        (set_power off on_pair))
stop_cell-Yields_example =
    stop_cell-Yields unary stem_of "qemu" "state" pair-IsSingle on_pair on-AtRest refl
