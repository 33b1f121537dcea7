-- ===== src/Tests/Events.antt =====
-- Runs of the queue of events of service.rs.
use ink_hole.Base.{
  if◌then◌else◌, ◌==◌, nat_eq_instance, int_eq_instance, option_eq_instance, keep, Text, codes,
  text_eq, text_eq_instance, ℕ, String, ◌≡◌, refl, true, some, List, [], ◌∷◌, ◌++◌,
}
use ink_hole.Service.EventQueue.{
  ServiceEvent, EventQueue, droppable_event, snapshot_event, is_critical, new, try_pop, emit,
  emit_open, emit_snapshot, pop_front, make_room, displace_snapshot, replace_first,
  same_snapshot_stream,
}
use ink_hole.Service.EventQueue.Lossless.{Use, takes, run, emitted, run-lossless}
use ink_hole.Service.EventQueue.Bounds.{IsBounded, run-new-IsBounded}
use ink_hole.Service.EventQueue.Snapshots.{IsCurrent, run-new-IsCurrent}
use ink_hole.Service.EventQueue.Waiting.{pop, pop_closed, returned, closes}

-- A payload is the number of its session here.
abbrev session : ℕ → Text → ℕ
session payload key = if key == codes "session_id" then payload else 0

abbrev named : String → ℕ → ServiceEvent ℕ
named name payload = record { event = codes name; payload = payload }

abbrev history : List (Use ℕ)
history =
    Use.emits (named "lan.transfer" 1)
    ∷ Use.emits (named "lan.peers" 7)
    ∷ takes
    ∷ Use.emits (named "lan.peers" 7)
    ∷ Use.emits (named "lan.progress" 2)
    ∷ Use.emits (named "lan.done" 3)
    ∷ []

run-lossless_example :
    let (received, end) = run session new history in
    keep is_critical (received ++ end.items)
    ≡ keep is_critical [] ++ keep is_critical (emitted session history)
unfolding new
run-lossless_example = run-lossless session new history refl

run-new-IsBounded_example : IsBounded (run session new history).1
run-new-IsBounded_example = run-new-IsBounded session history

run-new-IsCurrent_example : IsCurrent session (run session new history).1
run-new-IsCurrent_example = run-new-IsCurrent session history

abbrev no_events : List (ServiceEvent ℕ)
no_events = []

abbrev closed_queue : EventQueue ℕ
closed_queue = record { items = named "lan.done" 3 ∷ []; closed = true }

pop_closed_example :
    pop session closed_queue (some 250) ((closes ∷ []) ∷ [])
    ≡ (returned (try_pop closed_queue).0, (try_pop closed_queue).1)
pop_closed_example = pop_closed session closed_queue (some 250) ((closes ∷ []) ∷ []) refl

-- What the consumer takes first is what was emitted first.
first_taken : (run session new history).0 ≡ named "lan.transfer" 1 ∷ []
unfolding run new emit emit_open emit_snapshot try_pop pop_front make_room displace_snapshot
    replace_first same_snapshot_stream snapshot_event droppable_event text_eq
first_taken = refl
