-- ===== src/Service/EventQueue/Bounds.antt =====
-- How many events that are not critical the queue can hold.
use mathlib.Core.List.{append-nil}
use ink_hole.Base.{
  Eq, nat_eq_instance, length, length-append, int_eq_instance, option_eq_instance, keep,
  keep-append, length-keep-le, Text, text_eq_instance, ℕ, ◌≤◌, ◌<◌, ◌≡◌, refl, Bool, true, false,
  ◌||◌, Option, some, List, [], ◌∷◌, arith, keep-remove_at, length-keep-remove_at,
}
use ink_hole.Service.EventQueue.{
  ServiceEvent, EventQueue, is_droppable, is_snapshot, droppable-snapshot, droppable_event_capacity,
  max_snapshot_queue_capacity, new, try_pop, pop_front, emit, same_snapshot_stream,
}
use ink_hole.Service.EventQueue.Removal.{
  Room, kept, dropped, displaced, refused, keep-replace_first, length-keep-replace_first,
}
use ink_hole.Service.EventQueue.Outcomes.{
  Outcome, shut, superseded, added, given_up, overflow, appended, emit-Outcome,
}
use ink_hole.Service.EventQueue.Lossless.{Use, emits, takes, same_snapshot_stream-event, run}

module _ {Value : Type 0} where
  abbrev pub is_loose : ServiceEvent Value → Bool
  is_loose e = is_droppable e || is_snapshot e

  abbrev pub droppables : EventQueue Value → ℕ
  droppables queue = length (keep is_droppable queue.items)

  abbrev pub loose : EventQueue Value → ℕ
  loose queue = length (keep is_loose queue.items)

  pub record IsBounded (queue : EventQueue Value) : Type 0 where
    pub droppable_bound : droppables queue ≤ droppable_event_capacity
    pub loose_bound : loose queue ≤ max_snapshot_queue_capacity

  pub new-IsBounded : IsBounded new
  unfolding new
  new-IsBounded = record { droppable_bound = omega arith; loose_bound = omega arith }

  snapshot-ne-droppable : (e : ServiceEvent Value) → is_snapshot e ≡ true → is_droppable e ≡ false
  snapshot-ne-droppable e h = ground (arith, droppable-snapshot e.event)

  -- A list with room for one more snapshot.
  record HasRoom (xs : List (ServiceEvent Value)) : Type 0 where
    droppable_room : length (keep is_droppable xs) ≤ droppable_event_capacity
    loose_room : length (keep is_loose xs) < max_snapshot_queue_capacity

  Room-HasRoom :
      (queue : EventQueue Value) (xs : List (ServiceEvent Value))
      {r : Option (List (ServiceEvent Value))}
      → IsBounded queue
      → Room queue.items r
      → r ≡ some xs
      → HasRoom xs
  Room-HasRoom queue xs b (kept free) e = ground (arith, length-keep-le is_loose queue.items)
  Room-HasRoom queue xs b (dropped i full at) e = ground (
    arith,
    length-keep-remove_at is_droppable is_loose i queue.items (λ x h. ground arith) at,
    length-keep-remove_at is_droppable is_droppable i queue.items (λ x h. h) at,
  )
  Room-HasRoom queue xs b (displaced i full at) e = ground (
    arith,
    length-keep-remove_at is_snapshot is_loose i queue.items (λ x h. ground arith) at,
    keep-remove_at is_snapshot is_droppable i queue.items snapshot-ne-droppable at,
  )
  Room-HasRoom queue xs b (refused _ _ _) e = cc

module _ {Value : Type 0} ⦃value_eq : Eq Value⦄ (index : Value → Text → Value) where
  Outcome-IsBounded :
      (queue : EventQueue Value) (e : ServiceEvent Value) {r : EventQueue Value × Bool}
      → IsBounded queue
      → Outcome index queue e r
      → IsBounded r.0
  Outcome-IsBounded queue e b (shut _) = b
  Outcome-IsBounded queue e b (superseded xs snapshot old) = ground (
    arith,
    length-keep-replace_first _ is_loose e queue.items xs same_loose old,
    keep-replace_first _ is_droppable e queue.items xs (snapshot-ne-droppable e snapshot)
        same_snapshot old,
  )
    where
      same_loose :
          (x : ServiceEvent Value) → same_snapshot_stream index x e ≡ true → is_loose x ≡ is_loose e
      same_loose x h = rw (same_snapshot_stream-event index x e h)

      same_snapshot :
          (x : ServiceEvent Value) → same_snapshot_stream index x e ≡ true → is_droppable x ≡ false
      same_snapshot x h =
          rw (same_snapshot_stream-event index x e h) (snapshot-ne-droppable e snapshot)
  Outcome-IsBounded queue e b (added xs snapshot first room) = ground (
    arith,
    Room-HasRoom queue xs b room refl,
    keep-append is_loose xs (e ∷ []),
    keep-append is_droppable xs (e ∷ []),
    length-append (keep is_loose xs) (e ∷ []),
    snapshot-ne-droppable e,
    append-nil (keep is_droppable xs),
  )
  Outcome-IsBounded queue e b (given_up _ _ _) = b
  Outcome-IsBounded queue e b (overflow _ _) = b
  Outcome-IsBounded queue e b (appended plain free) = ground (
    arith,
    keep-append is_loose queue.items (e ∷ []),
    keep-append is_droppable queue.items (e ∷ []),
    length-append (keep is_loose queue.items) (e ∷ []),
    length-append (keep is_droppable queue.items) (e ∷ []),
    length-keep-le is_loose queue.items,
    length-keep-le is_droppable queue.items,
    append-nil (keep is_loose queue.items),
    append-nil (keep is_droppable queue.items),
  )

  pub emit-IsBounded :
      (queue : EventQueue Value) (e : ServiceEvent Value)
      → IsBounded queue
      → IsBounded (emit index queue e).0
  emit-IsBounded queue e b = Outcome-IsBounded queue e b (emit-Outcome index queue e)

  pop_front-IsBounded :
      (closed : Bool) (xs : List (ServiceEvent Value))
      → IsBounded (record { items = xs; closed = closed })
      → IsBounded (record { items = (pop_front xs).1; closed = closed })
  unfolding pop_front
  pop_front-IsBounded closed [] b = b
  pop_front-IsBounded closed (x ∷ xs) b = ground arith

  try_pop-IsBounded : (queue : EventQueue Value) → IsBounded queue → IsBounded (try_pop queue).1
  unfolding try_pop
  try_pop-IsBounded queue b = pop_front-IsBounded queue.closed queue.items b

  run-IsBounded :
      (queue : EventQueue Value) (uses : List (Use Value))
      → IsBounded queue
      → IsBounded (run index queue uses).1
  unfolding run
  run-IsBounded queue [] b = b
  run-IsBounded queue (emits e ∷ uses) b =
      run-IsBounded (emit index queue e).0 uses (emit-IsBounded queue e b)
  run-IsBounded queue (takes ∷ uses) b =
      run-IsBounded (try_pop queue).1 uses (try_pop-IsBounded queue b)

  -- Whatever has been emitted and received since the queue was new, it holds at most 128 events that
  -- are dropped under pressure and at most 1024 that are not critical.
  pub run-new-IsBounded : (uses : List (Use Value)) → IsBounded (run index new uses).1
  run-new-IsBounded uses = run-IsBounded new uses new-IsBounded
