-- ===== src/Service/EventQueue/Lossless.antt =====
-- Critical events through `emit` and `try_pop`: none is lost, doubled or reordered.
use mathlib.Core.List.{append-nil, append_assoc}
use ink_hole.Service.EventQueue.Outcomes.{
  Outcome, shut, superseded, added, given_up, overflow, appended, emit-Outcome,
}
use ink_hole.Base.{
  Eq, nat_eq_instance, int_eq_instance, option_eq_instance, keep, keep-append, Text, text_eq_iff,
  text_eq_instance, ◌≡◌, refl, sym, ap, ◌∙◌, Bool, true, false, Option, none, some, List, [], ◌∷◌,
  ◌++◌, arith,
}
use ink_hole.Service.EventQueue.{
  ServiceEvent, EventQueue, is_snapshot, is_critical, pop_front, try_pop, same_snapshot_stream,
  emit,
}
use ink_hole.Service.EventQueue.Removal.{snapshot-ne-critical, keep-replace_first, critical-Room}

abbrev to_list {ℓ} : {A : Type ℓ} → Option A → List A
to_list none = []
to_list (some a) = a ∷ []

-- What one step of a producer or a consumer does.
pub data Use (Value : Type 0) : Type 0 where
  emits : ServiceEvent Value → Use Value
  takes : Use Value

module _ {Value : Type 0} ⦃value_eq : Eq Value⦄ (index : Value → Text → Value) where
  -- Two events of one stream are both snapshots or neither is.
  pub same_snapshot_stream-event :
      (x e : ServiceEvent Value) → same_snapshot_stream index x e ≡ true → x.event ≡ e.event
  unfolding same_snapshot_stream
  same_snapshot_stream-event x e h = (text_eq_iff x.event e.event).0 (ground arith)

  pub stream-ne-critical :
      (e : ServiceEvent Value)
      → is_snapshot e ≡ true
      → (x : ServiceEvent Value) → same_snapshot_stream index x e ≡ true
      → is_critical x ≡ false
  stream-ne-critical e snapshot x h =
      snapshot-ne-critical x (rw (same_snapshot_stream-event x e h) snapshot)

  abbrev pub critical_of : ServiceEvent Value → List (ServiceEvent Value)
  critical_of e = keep is_critical (e ∷ [])

  critical-Outcome :
      (queue : EventQueue Value) (e : ServiceEvent Value) {r : EventQueue Value × Bool}
      → Outcome index queue e r
      → queue.closed ≡ false
      → keep is_critical r.0.items ≡ keep is_critical queue.items ++ critical_of e
  critical-Outcome queue e (shut closed) opened = cc
  critical-Outcome queue e (superseded xs snapshot old) opened = ground (
    arith,
    append-nil (keep is_critical queue.items),
    keep-replace_first _ is_critical e queue.items xs (snapshot-ne-critical e snapshot)
        (stream-ne-critical e snapshot) old,
  )
  critical-Outcome queue e (added xs snapshot first room) opened =
      ground (arith, keep-append is_critical xs (e ∷ []), critical-Room queue.items xs room refl)
  critical-Outcome queue e (given_up snapshot first room) opened =
      ground (arith, append-nil (keep is_critical queue.items))
  critical-Outcome queue e (overflow droppable full) opened =
      ground (arith, append-nil (keep is_critical queue.items))
  critical-Outcome queue e (appended plain free) opened =
      keep-append is_critical queue.items (e ∷ [])

  pub critical-emit :
      (queue : EventQueue Value) (e : ServiceEvent Value)
      → queue.closed ≡ false
      → keep is_critical (emit index queue e).0.items
        ≡ keep is_critical queue.items ++ critical_of e
  critical-emit queue e opened = critical-Outcome queue e (emit-Outcome index queue e) opened

  closed-Outcome :
      (queue : EventQueue Value) (e : ServiceEvent Value) {r : EventQueue Value × Bool}
      → Outcome index queue e r
      → r.0.closed ≡ queue.closed
  closed-Outcome queue e (shut _) = refl
  closed-Outcome queue e (superseded _ _ _) = refl
  closed-Outcome queue e (added _ _ _ _) = refl
  closed-Outcome queue e (given_up _ _ _) = refl
  closed-Outcome queue e (overflow _ _) = refl
  closed-Outcome queue e (appended _ _) = refl

  pop_front-append :
      (xs : List (ServiceEvent Value)) → to_list (pop_front xs).0 ++ (pop_front xs).1 ≡ xs
  unfolding pop_front
  pop_front-append [] = refl
  pop_front-append (x ∷ xs) = refl

  -- `try_pop` takes the oldest event and leaves the others in place.
  pub try_pop_front :
      (queue : EventQueue Value)
      → to_list (try_pop queue).0 ++ (try_pop queue).1.items ≡ queue.items
  unfolding try_pop
  try_pop_front queue = pop_front-append queue.items

  try_pop-closed : (queue : EventQueue Value) → (try_pop queue).1.closed ≡ queue.closed
  unfolding try_pop
  try_pop-closed queue = refl

  -- What the consumer receives from a history of steps, and the queue that is left.
  unfoldable pub run :
      EventQueue Value → List (Use Value) → List (ServiceEvent Value) × EventQueue Value
  run queue [] = ([], queue)
  run queue (emits e ∷ uses) = run (emit index queue e).0 uses
  run queue (takes ∷ uses) =
      let (front, rest) = try_pop queue in
      let (received, end) = run rest uses in (to_list front ++ received, end)

  abbrev pub emitted : List (Use Value) → List (ServiceEvent Value)
  emitted [] = []
  emitted (emits e ∷ uses) = e ∷ emitted uses
  emitted (takes ∷ uses) = emitted uses

  -- On an open queue, the critical events received and those still queued, in this order, are the
  -- critical events queued at the start and those emitted since, each once and in the order of
  -- emission.
  pub run-lossless :
      (queue : EventQueue Value) (uses : List (Use Value))
      → queue.closed ≡ false
      → let (received, end) = run queue uses in
        keep is_critical (received ++ end.items)
        ≡ keep is_critical queue.items ++ keep is_critical (emitted uses)
  unfolding run
  run-lossless queue [] opened = sym (append-nil _)
  run-lossless queue (emits e ∷ uses) opened =
      run-lossless (emit index queue e).0 uses
        (closed-Outcome queue e (emit-Outcome index queue e) ∙ opened)
      ∙ ap (λ xs. xs ++ keep is_critical (emitted uses)) (critical-emit queue e opened)
      ∙ append_assoc (keep is_critical queue.items) (critical_of e)
          (keep is_critical (emitted uses))
      ∙ ap (◌++◌ (keep is_critical queue.items))
          (sym (keep-append is_critical (e ∷ []) (emitted uses)))
  run-lossless queue (takes ∷ uses) opened = rw append_assoc (
      rw (keep-append, run-lossless (try_pop queue).1 uses (try_pop-closed queue ∙ opened))
        (sym (
            append_assoc (keep is_critical (to_list (try_pop queue).0))
              (keep is_critical (try_pop queue).1.items) (keep is_critical (emitted uses)))
          ∙ ap (λ xs. xs ++ keep is_critical (emitted uses))
              (sym (keep-append is_critical (to_list (try_pop queue).0) (try_pop queue).1.items)
                ∙ ap (keep is_critical) (try_pop_front queue))))
