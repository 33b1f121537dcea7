-- ===== src/Service/EventQueue/Removal.antt =====
-- What the two ways of making place in the event queue leave alone.

use ink_hole.Base.{
  leb, Bool-cases, Option-cases, nat_eq_instance, length, any, int_eq_instance, option_eq_instance,
  keep, position, remove_at, text_eq_instance, ℕ, ◌≤◌, ◌<◌, ◌≡◌, refl, inl, inr, Bool, true, false,
  Option, none, some, List, [], ◌∷◌, arith, keep-remove_at, position-none,
}
use ink_hole.Service.EventQueue.{
  ServiceEvent, is_droppable, is_snapshot, is_critical, replace_first, displace_snapshot, make_room,
  droppable_event_capacity, max_snapshot_queue_capacity,
}

module _ {Value : Type 0} where
  pub droppable-ne-critical :
      (e : ServiceEvent Value) → is_droppable e ≡ true → is_critical e ≡ false
  droppable-ne-critical e h = ground arith

  pub snapshot-ne-critical : (e : ServiceEvent Value) → is_snapshot e ≡ true → is_critical e ≡ false
  snapshot-ne-critical e h = ground arith

  pub keep-replace_first :
      (p q : ServiceEvent Value → Bool) (e : ServiceEvent Value) (xs ys : List (ServiceEvent Value))
      → q e ≡ false
      → ((x : ServiceEvent Value) → p x ≡ true → q x ≡ false)
      → replace_first p e xs ≡ some ys
      → keep q ys ≡ keep q xs
  unfolding replace_first
  keep-replace_first p q e [] ys h apart r = cc
  keep-replace_first p q e (x ∷ xs) ys h apart r = elim (Option-cases (replace_first p e xs)) [
    | inl missing ↦ ground (arith, apart x)
    | inr (zs, found) ↦ ground (arith, apart x, keep-replace_first p q e xs zs h apart found)
  ]

  pub length-replace_first :
      (p : ServiceEvent Value → Bool) (e : ServiceEvent Value) (xs ys : List (ServiceEvent Value))
      → replace_first p e xs ≡ some ys
      → length ys ≡ length xs
  unfolding replace_first
  length-replace_first p e [] ys r = cc
  length-replace_first p e (x ∷ xs) ys r = elim (Option-cases (replace_first p e xs)) [
    | inl missing ↦ ground arith
    | inr (zs, found) ↦ ground (arith, length-replace_first p e xs zs found)
  ]

  pub any-replace_first :
      (p : ServiceEvent Value → Bool) (e : ServiceEvent Value) (xs : List (ServiceEvent Value))
      → replace_first p e xs ≡ none
      → any p xs ≡ false
  unfolding replace_first
  any-replace_first p e [] r = refl
  any-replace_first p e (x ∷ xs) r = ground (arith, any-replace_first p e xs)

  -- Where `q` tells the new event from none that it may replace, as many events satisfy `q`.
  pub length-keep-replace_first :
      (p q : ServiceEvent Value → Bool) (e : ServiceEvent Value) (xs ys : List (ServiceEvent Value))
      → ((x : ServiceEvent Value) → p x ≡ true → q x ≡ q e)
      → replace_first p e xs ≡ some ys
      → length (keep q ys) ≡ length (keep q xs)
  unfolding replace_first
  length-keep-replace_first p q e [] ys alike r = cc
  length-keep-replace_first p q e (x ∷ xs) ys alike r = elim (Option-cases (replace_first p e xs)) [
    | inl missing ↦ ground (arith, alike x)
    | inr (zs, found) ↦ ground (arith, alike x, length-keep-replace_first p q e xs zs alike found)
  ]

  -- The ways out of `make_room`.
  pub data Room (xs : List (ServiceEvent Value)) : Option (List (ServiceEvent Value)) → Type 0 where
    kept : length xs < max_snapshot_queue_capacity → Room xs (some xs)
    dropped :
        (i : ℕ)
        → droppable_event_capacity ≤ length xs
        → position is_droppable xs ≡ some i
        → Room xs (some (remove_at i xs))
    displaced :
        (i : ℕ)
        → max_snapshot_queue_capacity ≤ length xs
        → position is_snapshot xs ≡ some i
        → Room xs (some (remove_at i xs))
    refused :
        max_snapshot_queue_capacity ≤ length xs
        → any is_droppable xs ≡ false
        → any is_snapshot xs ≡ false
        → Room xs none

  displace_snapshot-Room :
      (xs : List (ServiceEvent Value))
      → (max_snapshot_queue_capacity ≤ length xs → any is_droppable xs ≡ false)
      → Room xs (displace_snapshot xs)
  unfolding displace_snapshot
  displace_snapshot-Room xs calm = elim (Bool-cases (leb max_snapshot_queue_capacity (length xs))) [
    | inl full ↦ elim (Option-cases (position is_snapshot xs)) [
      | inl bare ↦
          rw (full, bare)
            (refused (ground arith) (calm (ground arith)) (position-none is_snapshot xs bare))
      | inr (i, at) ↦ rw (full, at) (displaced i (ground arith) at)
    ]
    | inr free ↦ rw free (kept (ground arith))
  ]

  pub make_room-Room : (xs : List (ServiceEvent Value)) → Room xs (make_room xs)
  unfolding make_room
  make_room-Room xs = elim (Bool-cases (leb droppable_event_capacity (length xs))) [
    | inl full ↦ elim (Option-cases (position is_droppable xs)) [
      | inl calm ↦
          rw (full, calm, make_room)
            (displace_snapshot-Room xs (λ _. position-none is_droppable xs calm))
      | inr (i, at) ↦ rw (full, at, make_room) (dropped i (ground arith) at)
    ]
    | inr free ↦ rw free (displace_snapshot-Room xs (λ full. absurd (ground arith)))
  ]

  -- Whatever the queue holds, making room costs no critical event.
  pub critical-Room :
      (xs ys : List (ServiceEvent Value)) {r : Option (List (ServiceEvent Value))}
      → Room xs r
      → r ≡ some ys
      → keep is_critical ys ≡ keep is_critical xs
  critical-Room xs ys (kept _) e = ground arith
  critical-Room xs ys (dropped i _ at) e =
      ground (arith, keep-remove_at is_droppable is_critical i xs droppable-ne-critical at)
  critical-Room xs ys (displaced i _ at) e =
      ground (arith, keep-remove_at is_snapshot is_critical i xs snapshot-ne-critical at)
  critical-Room xs ys (refused _ _ _) e = cc
