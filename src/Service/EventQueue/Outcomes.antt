-- ===== src/Service/EventQueue/Outcomes.antt =====
-- The ways in which `emit` can end, each with what led to it.
use ink_hole.Base.{
  leb, Bool-cases, Option-cases, Eq, nat_eq_instance, length, int_eq_instance, option_eq_instance,
  Text, text_eq_instance, ◌≤◌, ◌<◌, ◌≡◌, subst, inl, inr, Bool, true, false, ◌&&◌, Option, none,
  some, List, [], ◌∷◌, ◌++◌, arith, if_elim,
}
use ink_hole.Service.EventQueue.{
  ServiceEvent, EventQueue, is_droppable, is_snapshot, droppable_event_capacity, replace_first,
  make_room, same_snapshot_stream, emit_snapshot, emit_open, emit,
}
use ink_hole.Service.EventQueue.Removal.{Room, make_room-Room}

module _ {Value : Type 0} ⦃value_eq : Eq Value⦄ (index : Value → Text → Value) where
  pub data Outcome (queue : EventQueue Value) (e : ServiceEvent Value)
      : EventQueue Value × Bool → Type 0 where
    shut : queue.closed ≡ true → Outcome queue e (queue, false)
    superseded :
        (xs : List (ServiceEvent Value))
        → is_snapshot e ≡ true
        → replace_first (λ queued. same_snapshot_stream index queued e) e queue.items ≡ some xs
        → Outcome queue e (record queue { items = xs }, true)
    added :
        (xs : List (ServiceEvent Value))
        → is_snapshot e ≡ true
        → replace_first (λ queued. same_snapshot_stream index queued e) e queue.items ≡ none
        → Room queue.items (some xs)
        → Outcome queue e (record queue { items = xs ++ e ∷ [] }, true)
    given_up :
        is_snapshot e ≡ true
        → replace_first (λ queued. same_snapshot_stream index queued e) e queue.items ≡ none
        → Room queue.items none
        → Outcome queue e (queue, false)
    overflow :
        is_droppable e ≡ true
        → droppable_event_capacity ≤ length queue.items
        → Outcome queue e (queue, false)
    appended :
        is_snapshot e ≡ false
        → (is_droppable e ≡ true → length queue.items < droppable_event_capacity)
        → Outcome queue e (record queue { items = queue.items ++ e ∷ [] }, true)

  emit_snapshot-Outcome :
      (queue : EventQueue Value) (e : ServiceEvent Value)
      → is_snapshot e ≡ true
      → Outcome queue e (emit_snapshot index queue e)
  unfolding emit_snapshot
  emit_snapshot-Outcome queue e snapshot =
      elim (Option-cases (replace_first (λ q. same_snapshot_stream index q e) e queue.items)) [
        | inl new ↦ elim (Option-cases (make_room queue.items)) [
          | inl stuck ↦ rw (new, stuck, emit_snapshot) (given_up snapshot new (room none stuck))
          | inr (xs, free) ↦
              rw (new, free, emit_snapshot) (added xs snapshot new (room (some xs) free))
        ]
        | inr (xs, old) ↦ rw (old, emit_snapshot) (superseded xs snapshot old)
      ]
    where
      room :
          (r : Option (List (ServiceEvent Value))) → make_room queue.items ≡ r → Room queue.items r
      room r h = subst (Room queue.items) h (make_room-Room queue.items)

  emit_open-Outcome :
      (queue : EventQueue Value) (e : ServiceEvent Value)
      → Outcome queue e (emit_open index queue e)
  unfolding emit_open
  emit_open-Outcome queue e = elim (Bool-cases (is_snapshot e)) [
    | inl snapshot ↦ rw snapshot (emit_snapshot-Outcome queue e snapshot)
    | inr plain ↦
        elim (Bool-cases (is_droppable e && leb droppable_event_capacity (length queue.items))) [
          | inl full ↦ rw (plain, full) (overflow (ground arith) (ground arith))
          | inr free ↦ rw (plain, free) (appended plain (λ d. ground arith))
        ]
  ]

  pub emit-Outcome :
      (queue : EventQueue Value) (e : ServiceEvent Value) → Outcome queue e (emit index queue e)
  unfolding emit
  emit-Outcome queue e =
      if_elim (Outcome queue e) queue.closed (λ closed. shut closed)
        (λ _. emit_open-Outcome queue e)
