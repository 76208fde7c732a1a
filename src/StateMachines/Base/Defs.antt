-- ===== src/StateMachines/Base/Defs.antt =====
-- backend/app/services/state_machines/base.py: the helpers that fire an event on a model.
-- A machine is the data that a `StateMachine` subclass declares: its initial and final states, the
-- transitions of each event in the order of the `|` chain, and its outputs.
use Prim.Native.String.{String}
use greensecops.Common.{◌≡◌, Bool, true, false, List, [], ◌∷◌, Option, none, some, ite}
use greensecops.StateMachines.Signals.{SseSignal}

pub record Machine (S E : Type 0) : Type 0 where
  pub initial : S
  pub final : S → Bool
  pub transitions : E → List (S × S)
  pub outputs : E → Option SseSignal

-- The value of a state column: NULL, a string that is no state of the machine, or a state.
pub data Column (S : Type 0) : Type 0 where
  null : Column S
  unknown : String → Column S
  value : S → Column S

-- `getattr` and `setattr` on the model's `state_field`.
pub record Field (M S : Type 0) : Type 0 where
  pub get : M → Column S
  pub set : S → M → M
  pub get-set : (s : S) (m : M) → get (set s m) ≡ value s

-- The target of the first declared transition that leaves the state.
unfoldable pub first_target : {S : Type 0} → Discrete S → List (S × S) → S → Option S
first_target d [] s = none
first_target d ((from, to) ∷ ts) s = ite (d from s) (some to) (first_target d ts s)

-- `machine.send` of python-statemachine, given the event's transitions and the current state:
-- the new state, or `none` where it raises `TransitionNotAllowed`. Its documentation says that the
-- transitions are tried in the order of their declaration.
pub record Engine {S : Type 0} (d : Discrete S) : Type 0 where
  pub send : List (S × S) → S → Option S
  pub send_lem : (ts : List (S × S)) (s : S) → send ts s ≡ first_target d ts s

pub data Error : Type 0 where
  illegal_transition invalid_state_value : Error

pub data Result (A : Type 0) : Type 0 where
  ok : A → Result A
  raise : Error → Result A

module _ {M S E : Type 0} {d : Discrete S} (engine : Engine d) (machine : Machine S E)
    (field : Field M S) where
  -- Both results with the model as the call leaves it.
  advance_sent : M → Option S → M × Result (Column S)
  advance_sent model none = (model, raise illegal_transition)
  advance_sent model (some s) = let after = field.set s model in (after, ok (field.get after))

  advance_from : M → Column S → E → M × Result (Column S)
  unfolding advance_sent
  advance_from model null event = (model, raise illegal_transition)
  advance_from model (unknown _) event = (model, raise invalid_state_value)
  advance_from model (value s) event =
      advance_sent model (engine.send (machine.transitions event) s)

  unfoldable pub advance : M → E → M × Result (Column S)
  unfolding advance_from
  advance model event = advance_from model (field.get model) event

  try_sent : M → Option S → M × Bool
  try_sent model none = (model, false)
  try_sent model (some s) = (field.set s model, true)

  try_from : M → Column S → E → M × Bool
  unfolding try_sent
  try_from model null event = (model, false)
  try_from model (unknown _) event = (model, false)
  try_from model (value s) event = try_sent model (engine.send (machine.transitions event) s)

  unfoldable pub try_advance : M → E → M × Bool
  unfolding try_from
  try_advance model event = try_from model (field.get model) event

unfoldable pub force_to : {M S : Type 0} → Field M S → M → S → M
force_to field model s = field.set s model

unfoldable pub output_for : {S E : Type 0} → Machine S E → E → Option SseSignal
output_for machine event = machine.outputs event

-- The state that an event leads to by the declared transitions, if it is legal.
unfoldable pub next_state : {S E : Type 0} → Discrete S → Machine S E → E → S → Option S
unfolding first_target
next_state d machine event s = first_target d (machine.transitions event) s
