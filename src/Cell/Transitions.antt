-- ===== src/Cell/Transitions.antt =====
-- `validate_transition` of src/core/lifecycle.rs, and what paths it allows.
use vm_cell_manager.Prelude.{
  Bool, true, false, ◌≡◌, ◌≢◌, ◌⊎◌, refl, inl, inr, arith, Result, ok, reject_if, not,
}
use vm_cell_manager.Cell.{CellState, creating, stopped, running, destroying, destroyed, failed}

pub record InvalidTransition : Type 0 where
  pub from_state : CellState
  pub to_state : CellState

unfoldable pub transition_is_valid : CellState → CellState → Bool
transition_is_valid creating stopped = true
transition_is_valid creating failed = true
transition_is_valid stopped running = true
transition_is_valid stopped CellState.destroying = true
transition_is_valid running stopped = true
transition_is_valid running CellState.destroying = true
transition_is_valid running failed = true
transition_is_valid failed CellState.destroying = true
transition_is_valid CellState.destroying CellState.destroyed = true
transition_is_valid CellState.destroying failed = true
transition_is_valid _ _ = false

unfoldable pub validate_transition : CellState → CellState → Result InvalidTransition (Unit {0})
unfolding transition_is_valid
validate_transition a b =
    reject_if (not (transition_is_valid a b)) (record { from_state = a; to_state = b })

-- A run of allowed transitions.
pub data Reach : CellState → CellState → Type 0 where
  here : {a : CellState} → Reach a a
  next : {a b c : CellState} → validate_transition a b ≡ ok tt → Reach b c → Reach a c

step_from_destroyed : (b : CellState) → validate_transition destroyed b ≢ ok tt
unfolding validate_transition
step_from_destroyed b h = ground arith

step_to_destroyed : (a : CellState) → validate_transition a destroyed ≡ ok tt → a ≡ destroying
unfolding validate_transition
step_to_destroyed a h = ground arith

valid_step : (a b : CellState) → transition_is_valid a b ≡ true → validate_transition a b ≡ ok tt
unfolding validate_transition
valid_step a b h = ground arith

-- From every state some run of allowed transitions ends in `destroyed`.
pub Reach-destroyed : (a : CellState) → Reach a destroyed
unfolding transition_is_valid
Reach-destroyed creating =
    next (valid_step creating stopped refl)
      (next (valid_step stopped destroying refl) (next (valid_step destroying destroyed refl) here))
Reach-destroyed stopped =
    next (valid_step stopped destroying refl) (next (valid_step destroying destroyed refl) here)
Reach-destroyed running =
    next (valid_step running destroying refl) (next (valid_step destroying destroyed refl) here)
Reach-destroyed destroying = next (valid_step destroying destroyed refl) here
Reach-destroyed destroyed = here
Reach-destroyed failed =
    next (valid_step failed destroying refl) (next (valid_step destroying destroyed refl) here)

-- A state that the run is in at some point.
pub Visits : CellState → {a b : CellState} → Reach a b → Type 0
Visits x (here {a}) = a ≡ x
Visits x (next {a} s r) = (a ≡ x) ⊎ Visits x r

last_step :
    {a c : CellState} (r : Reach a c) → c ≡ destroyed → (a ≡ destroyed) ⊎ Visits destroying r
unfolding Visits
last_step here e = inl e
last_step (next {a} {b} s r) e = elim (last_step r e) [
  | inl q ↦ inr (inl (step_to_destroyed a (rw q at s)))
  | inr q ↦ inr (inr q)
]

from_destroyed : {a b : CellState} → Reach a b → a ≡ destroyed → b ≡ destroyed
from_destroyed here e = e
from_destroyed (next {a} {b} s r) e = absurd (step_from_destroyed b (rw e at s))

-- No run of allowed transitions leaves `destroyed`.
pub destroyed_terminal : (b : CellState) → Reach destroyed b → b ≡ destroyed
destroyed_terminal b r = from_destroyed r refl

-- A run of allowed transitions that leads from another state to `destroyed` is in `destroying` at
-- some point.
pub destroyed_through_destroying :
    (a : CellState) → a ≢ destroyed → (r : Reach a destroyed) → Visits destroying r
destroyed_through_destroying a n r = elim (last_step r refl) [ inl e ↦ absurd (n e) | inr q ↦ q ]
