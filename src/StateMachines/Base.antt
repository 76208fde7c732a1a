-- ===== src/StateMachines/Base.antt =====
-- backend/app/services/state_machines/base.py: the model and what is proved of it.
mod Defs
mod Laws
mod Trace
pub use Laws.*
unfoldable pub use Trace.{try_all}
pub use Trace.{
  Reach, here, after, IsWellFormed, try_advance-next_state, try_all-Reach, try_all-needs_event,
}
pub use Defs.{
  Machine, Column, null, unknown, value, Field, Engine, Error, illegal_transition,
  invalid_state_value, Result, ok, raise,
}
unfoldable pub use Defs.{first_target, advance, try_advance, force_to, output_for, next_state}
