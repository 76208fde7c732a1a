-- ===== src/StateMachines/Fix/Delivery.antt =====
-- What a fix has gone through when it stands in a status.
use greensecops.Common.{◌≡◌, refl, ◌↔◌, Bool, true, false, List, Memᴰ, Option, some, arith}
use greensecops.StateMachines.Base.{value, Field, Engine, next_state, try_all, try_all-needs_event}
use greensecops.StateMachines.Fix.{
  FixStatus, pending, ready, delivering, delivered, failed, landed, FixEvent, start_delivery,
  delivery_succeeded, supersede_deleted_file, restore, land, swept, FixStatus-discrete,
  in_flight_statuses, rejected_statuses, fix_machine,
}

abbrev next_status : FixEvent → FixStatus → Option FixStatus
next_status = next_state FixStatus-discrete fix_machine

computed : Unit {0}
unfolding next_state fix_machine FixStatus-discrete
computed = tt

abbrev is_landed : FixStatus → Bool
is_landed landed = true
is_landed _ = false

abbrev past_delivery : FixStatus → Bool
past_delivery delivered = true
past_delivery landed = true
past_delivery _ = false

abbrev past_start : FixStatus → Bool
past_start delivering = true
past_start s = past_delivery s

land_only :
    (s t : FixStatus) (e : FixEvent)
    → is_landed s ≡ false
    → next_status e s ≡ some t
    → is_landed t ≡ true
    → e ≡ land
unfolding computed
land_only s t e = ground arith

delivered_only :
    (s t : FixStatus) (e : FixEvent)
    → past_delivery s ≡ false
    → next_status e s ≡ some t
    → past_delivery t ≡ true
    → e ≡ delivery_succeeded
unfolding computed
delivered_only s t e = ground arith

start_only :
    (s t : FixStatus) (e : FixEvent)
    → past_start s ≡ false
    → next_status e s ≡ some t
    → past_start t ≡ true
    → e ≡ start_delivery
unfolding computed
start_only s t e = ground arith

-- A fix that was pending and is landed after some events, legal or not, saw its delivery start, its
-- delivery succeed and its pull request land among them.
pub landed_was_delivered :
    {M : Type 0} (engine : Engine FixStatus-discrete) (field : Field M FixStatus) (fix : M)
    (es : List FixEvent)
    → field.get fix ≡ value pending
    → field.get (try_all engine fix_machine field fix es) ≡ value landed
    → Memᴰ start_delivery es × Memᴰ delivery_succeeded es × Memᴰ land es
landed_was_delivered engine field fix es start final = (
  through past_start start_delivery start_only refl refl,
  through past_delivery delivery_succeeded delivered_only refl refl,
  through is_landed land land_only refl refl,
)
  where
    through :
        (In : FixStatus → Bool) (gate : FixEvent)
        → ((s t : FixStatus) (e : FixEvent)
            → In s ≡ false
            → next_status e s ≡ some t
            → In t ≡ true
            → e ≡ gate)
        → In pending ≡ false
        → In landed ≡ true
        → Memᴰ gate es
    through In gate only out inside =
        try_all-needs_event engine fix_machine field In gate only fix pending landed es start out
          final inside

-- The sweeper's event is legal exactly in the statuses that a worker holds.
pub swept-in_flight :
    (s : FixStatus) → (next_status swept s ≡ some failed) ↔ (in_flight_statuses s ≡ true)
unfolding computed in_flight_statuses
swept-in_flight s = (ground arith, ground arith)

-- From whatever status the deletion of its file withdraws a fix, the status that it then has counts
-- as rejected, and the return of the file makes the fix ready.
pub supersede-restore :
    (s t : FixStatus)
    → next_status supersede_deleted_file s ≡ some t
    → (next_status restore t ≡ some ready) × (rejected_statuses t ≡ true)
unfolding computed rejected_statuses
supersede-restore s t h = ground arith
