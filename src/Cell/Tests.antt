-- ===== src/Cell/Tests.antt =====
-- The theorems on cell states at concrete states.
use vm_cell_manager.Prelude.{◌≡◌, ◌≢◌}
use vm_cell_manager.Cell.{CellState, creating, destroying, destroyed}
use vm_cell_manager.Cell.Transitions.{
  Reach, here, Visits, Reach-destroyed, destroyed_terminal, destroyed_through_destroying,
}

Reach-destroyed_example : Reach creating destroyed
Reach-destroyed_example = Reach-destroyed creating

abbrev last_state : CellState
last_state = destroyed

destroyed_terminal_example : last_state ≡ destroyed
destroyed_terminal_example = destroyed_terminal last_state here

creating_is_not_destroyed : creating ≢ destroyed
creating_is_not_destroyed e = cc

destroyed_through_destroying_example : Visits destroying (Reach-destroyed creating)
destroyed_through_destroying_example =
    destroyed_through_destroying creating creating_is_not_destroyed (Reach-destroyed creating)
