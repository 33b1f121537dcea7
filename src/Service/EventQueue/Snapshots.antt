-- ===== src/Service/EventQueue/Snapshots.antt =====
-- Snapshots in the event queue: the newest of each stream stands in it, and no older one.
use mathlib.Core.List.{Memᴰ}
use mathlib.Core.Path.{fun_ext, ap₂}
use ink_hole.Base.{
  Bool-cases, Option-cases, Eq, nat_eq_instance, length, length-append, all, any, Memᴰ,
  int_eq_instance, option_eq_instance, keep, keep-append, remove_at, Text, codes, text_eq,
  text_eq_iff, text_eq_instance, ℕ, zero, suc, ◌≤◌, ◌≡◌, refl, ap, subst, ◌⊎◌, inl, inr, Bool, true,
  false, ◌&&◌, Option, none, some, List, [], ◌∷◌, ◌++◌, arith,
}
use ink_hole.Service.EventQueue.{
  ServiceEvent, EventQueue, is_droppable, is_snapshot, is_critical, droppable-snapshot,
  max_snapshot_queue_capacity, replace_first, new, pop_front, try_pop, same_snapshot_stream, emit,
  snapshot_event,
}
use ink_hole.Service.EventQueue.Removal.{
  Room, kept, dropped, displaced, refused, length-keep-replace_first, any-replace_first,
}
use ink_hole.Service.EventQueue.Outcomes.{
  Outcome, shut, superseded, added, given_up, overflow, appended, emit-Outcome,
}
use ink_hole.Service.EventQueue.Lossless.{Use, emits, takes, run, same_snapshot_stream-event}

module _ {Value : Type 0} where
  Memᴰ-append_last :
      (xs : List (ServiceEvent Value)) (e : ServiceEvent Value) → Memᴰ e (xs ++ e ∷ [])
  Memᴰ-append_last [] e = Memᴰ.head refl
  Memᴰ-append_last (x ∷ xs) e = Memᴰ.tail (Memᴰ-append_last xs e)

  Memᴰ-replace_first :
      (p : ServiceEvent Value → Bool) (e : ServiceEvent Value) (xs ys : List (ServiceEvent Value))
      → replace_first p e xs ≡ some ys
      → Memᴰ e ys
  unfolding replace_first
  Memᴰ-replace_first p e [] ys r = cc
  Memᴰ-replace_first p e (x ∷ xs) ys r = elim (Bool-cases (p x)) [
    | inl hit ↦ subst (Memᴰ e) (ground arith) (Memᴰ.head {xs = xs} refl)
    | inr miss ↦ elim (Option-cases (replace_first p e xs)) [
      | inl missing ↦ absurd (ground arith)
      | inr (zs, found) ↦
          subst (Memᴰ e) (ground arith) (Memᴰ.tail {x = x} (Memᴰ-replace_first p e xs zs found))
    ]
  ]

  all_critical :
      (xs : List (ServiceEvent Value))
      → any is_droppable xs ≡ false
      → any is_snapshot xs ≡ false
      → all is_critical xs ≡ true
  all_critical [] d s = refl
  all_critical (x ∷ xs) d s = ground (arith, all_critical xs)

  length-keep-remove_at_le :
      (q : ServiceEvent Value → Bool) (i : ℕ) (xs : List (ServiceEvent Value))
      → length (keep q (remove_at i xs)) ≤ length (keep q xs)
  unfolding remove_at
  length-keep-remove_at_le q i [] = omega arith
  length-keep-remove_at_le q zero (x ∷ xs) = ground arith
  length-keep-remove_at_le q (suc i) (x ∷ xs) = ground (arith, length-keep-remove_at_le q i xs)

  keep-none :
      (q : ServiceEvent Value → Bool) (xs : List (ServiceEvent Value))
      → any q xs ≡ false
      → keep q xs ≡ []
  keep-none q [] h = refl
  keep-none q (x ∷ xs) h = ground (arith, keep-none q xs)

  length-keep-pop :
      (q : ServiceEvent Value → Bool) (xs : List (ServiceEvent Value))
      → length (keep q (pop_front xs).1) ≤ length (keep q xs)
  unfolding pop_front
  length-keep-pop q [] = omega arith
  length-keep-pop q (x ∷ xs) = ground arith

  Room-length-keep :
      (q : ServiceEvent Value → Bool) (xs ys : List (ServiceEvent Value))
      {r : Option (List (ServiceEvent Value))}
      → Room xs r
      → r ≡ some ys
      → length (keep q ys) ≤ length (keep q xs)
  Room-length-keep q xs ys (kept _) e = ground arith
  Room-length-keep q xs ys (dropped i _ _) e = ground (arith, length-keep-remove_at_le q i xs)
  Room-length-keep q xs ys (displaced i _ _) e = ground (arith, length-keep-remove_at_le q i xs)
  Room-length-keep q xs ys (refused _ _ _) e = cc

  refused_full :
      (xs : List (ServiceEvent Value)) {r : Option (List (ServiceEvent Value))}
      → Room xs r
      → r ≡ none
      → (max_snapshot_queue_capacity ≤ length xs) × (all is_critical xs ≡ true)
  refused_full xs (kept _) e = cc
  refused_full xs (dropped _ _ _) e = cc
  refused_full xs (displaced _ _ _) e = cc
  refused_full xs (refused full calm bare) e = (full, all_critical xs calm bare)

module _ {Value : Type 0} ⦃value_eq : Eq Value⦄ (index : Value → Text → Value) where
  abbrev pub in_stream : ServiceEvent Value → ServiceEvent Value → Bool
  in_stream e x = same_snapshot_stream index x e

  abbrev session_id : Text
  session_id = codes "session_id"

  -- The relation of belonging to one stream is an equivalence.
  in_stream-congr :
      (e f : ServiceEvent Value)
      → same_snapshot_stream index e f ≡ true
      → ((x : ServiceEvent Value) → in_stream e x ≡ in_stream f x)
        × ((x : ServiceEvent Value) → in_stream x e ≡ in_stream x f)
  unfolding same_snapshot_stream
  in_stream-congr e f h = (
    λ x.
        ap₂ (λ name id. text_eq x.event name && value_eq.beq (index x.payload session_id) id) names
          ids,
    λ x.
        ap₂ (λ name id. text_eq name x.event && value_eq.beq id (index x.payload session_id)) names
          ids,
  )
    where
      names : e.event ≡ f.event
      names = (text_eq_iff e.event f.event).0 (ground arith)

      ids : index e.payload session_id ≡ index f.payload session_id
      ids =
          (value_eq.beq_iff (index e.payload session_id) (index f.payload session_id)).0
            (ground arith)

  delivered-Outcome :
      (queue : EventQueue Value) (e : ServiceEvent Value) {r : EventQueue Value × Bool}
      → Outcome index queue e r
      → queue.closed ≡ false
      → is_snapshot e ≡ true
      → (Memᴰ e r.0.items × (r.1 ≡ true))
        ⊎ ((r ≡ (queue, false))
            × (max_snapshot_queue_capacity ≤ length queue.items)
            × (all is_critical queue.items ≡ true))
  delivered-Outcome queue e (shut closed) opened s = cc
  delivered-Outcome queue e (superseded xs _ old) opened s =
      inl (Memᴰ-replace_first _ e queue.items xs old, refl)
  delivered-Outcome queue e (added xs _ _ _) opened s = inl (Memᴰ-append_last xs e, refl)
  delivered-Outcome queue e (given_up _ _ room) opened s =
      let (full, calm) = refused_full queue.items room refl in inr (refl, full, calm)
  delivered-Outcome queue e (overflow droppable _) opened s =
      absurd (ground (arith, droppable-snapshot e.event))
  delivered-Outcome queue e (appended plain _) opened s = cc

  -- Emitting a snapshot on an open queue leaves it in the queue and notifies a consumer, unless at
  -- least 1024 events wait and all of them are critical; then nothing changes.
  pub emit_delivers_snapshot :
      (queue : EventQueue Value) (e : ServiceEvent Value)
      → queue.closed ≡ false
      → is_snapshot e ≡ true
      → let r = emit index queue e in
        (Memᴰ e r.0.items × (r.1 ≡ true))
        ⊎ ((r ≡ (queue, false))
            × (max_snapshot_queue_capacity ≤ length queue.items)
            × (all is_critical queue.items ≡ true))
  emit_delivers_snapshot queue e = delivered-Outcome queue e (emit-Outcome index queue e)

  -- At most one event of each stream of snapshots is queued.
  pub IsCurrent : EventQueue Value → Type 0
  IsCurrent queue =
      (e : ServiceEvent Value) → is_snapshot e ≡ true → length (keep (in_stream e) queue.items) ≤ 1

  none_queued :
      (queue : EventQueue Value) (e f : ServiceEvent Value)
      → in_stream f e ≡ true
      → replace_first (in_stream e) e queue.items ≡ none
      → keep (in_stream f) queue.items ≡ []
  none_queued queue e f same first =
      rw (← fun_ext (in_stream-congr e f same).0)
        (keep-none (in_stream e) queue.items (any-replace_first (in_stream e) e queue.items first))

  IsCurrent-Outcome :
      (queue : EventQueue Value) (e : ServiceEvent Value) {r : EventQueue Value × Bool}
      → IsCurrent queue
      → Outcome index queue e r
      → IsCurrent r.0
  unfolding IsCurrent
  IsCurrent-Outcome queue e b (shut _) = b
  IsCurrent-Outcome queue e b (superseded xs _ old) = λ f s. omega (
    arith,
    length-keep-replace_first _ (in_stream f) e queue.items xs (λ x h. (in_stream-congr x e h).1 f)
        old,
    b f s,
  )
  IsCurrent-Outcome queue e b (added xs _ first room) = λ f s.
      rw (keep-append (in_stream f) xs (e ∷ []), length-append (keep (in_stream f) xs))
        (elim (Bool-cases (in_stream f e)) [
          | inl same ↦ rw same (
              omega (
                arith,
                Room-length-keep (in_stream f) queue.items xs room refl,
                ap length (none_queued queue e f same first),
              ))
          | inr apart ↦
              rw apart
                (omega (arith, Room-length-keep (in_stream f) queue.items xs room refl, b f s))
        ])
  IsCurrent-Outcome queue e b (given_up _ _ _) = b
  IsCurrent-Outcome queue e b (overflow _ _) = b
  IsCurrent-Outcome queue e b (appended plain _) = λ f s.
      rw
        (
          keep-append (in_stream f) queue.items (e ∷ []),
          length-append (keep (in_stream f) queue.items),
          apart f s,
        )
        (omega (arith, b f s))
    where
      apart : (f : ServiceEvent Value) → is_snapshot f ≡ true → in_stream f e ≡ false
      apart f s = elim (Bool-cases (in_stream f e)) [
        | inl same ↦
            absurd (ground (arith, ap snapshot_event (same_snapshot_stream-event index e f same)))
        | inr h ↦ h
      ]

  try_pop-IsCurrent : (queue : EventQueue Value) → IsCurrent queue → IsCurrent (try_pop queue).1
  unfolding IsCurrent try_pop
  try_pop-IsCurrent queue b f s = omega (arith, length-keep-pop (in_stream f) queue.items, b f s)

  run-IsCurrent :
      (queue : EventQueue Value) (uses : List (Use Value))
      → IsCurrent queue
      → IsCurrent (run index queue uses).1
  unfolding run
  run-IsCurrent queue [] b = b
  run-IsCurrent queue (emits e ∷ uses) b =
      run-IsCurrent (emit index queue e).0 uses
        (IsCurrent-Outcome queue e b (emit-Outcome index queue e))
  run-IsCurrent queue (takes ∷ uses) b =
      run-IsCurrent (try_pop queue).1 uses (try_pop-IsCurrent queue b)

  -- Whatever has been emitted and received since the queue was new, at most one event of each stream
  -- of snapshots is queued.
  pub run-new-IsCurrent : (uses : List (Use Value)) → IsCurrent (run index new uses).1
  unfolding IsCurrent
  run-new-IsCurrent uses = run-IsCurrent new uses (unfold new in λ f s. omega arith)
