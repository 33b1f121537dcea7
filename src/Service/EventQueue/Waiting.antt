-- ===== src/Service/EventQueue/Waiting.antt =====
-- `EventQueue::pop`: a consumer that waits. The producers' steps between two looks at the queue are
-- a schedule; a schedule that ends stands for the timeout.
use ink_hole.Base.{
  if◌then◌else◌, Eq, nat_eq_instance, int_eq_instance, option_eq_instance, Text, text_eq_instance,
  ℕ, zero, suc, ◌≡◌, refl, sym, subst, true, Option, none, some, List, [], ◌∷◌,
}
use ink_hole.Service.EventQueue.{ServiceEvent, EventQueue, pop_front, try_pop, close, clear, emit}

-- What another task does to the queue while the consumer waits.
pub data Other (Value : Type 0) : Type 0 where
  emits : ServiceEvent Value → Other Value
  closes clears : Other Value

-- Whether `pop` has come back, and with what.
pub data Popped (Value : Type 0) : Type 0 where
  returned : Option (ServiceEvent Value) → Popped Value
  waiting : Popped Value

module _ {Value : Type 0} ⦃value_eq : Eq Value⦄ (index : Value → Text → Value) where
  apply : EventQueue Value → Other Value → EventQueue Value
  apply queue (emits e) = (emit index queue e).0
  apply queue closes = close queue
  apply queue clears = clear queue

  apply_all : EventQueue Value → List (Other Value) → EventQueue Value
  unfolding apply
  apply_all queue [] = queue
  apply_all queue (o ∷ os) = apply_all (apply queue o) os

  -- One look at the queue, in the body of the loop.
  look : EventQueue Value → Popped Value × EventQueue Value
  unfolding pop_front
  look queue =
      let (front, rest) = pop_front queue.items in
      (
        elim front [
          | some e ↦ returned (some e)
          | none ↦ if queue.closed then returned none else waiting
        ],
        record queue { items = rest },
      )

  -- The loop `wait`: each element of the schedule is what happens before the next notification.
  unfoldable pub wait :
      EventQueue Value → List (List (Other Value)) → Popped Value × EventQueue Value
  unfolding look apply_all
  wait queue [] = look queue
  wait queue (batch ∷ schedule) =
      let later = wait (apply_all (look queue).1 batch) schedule in
      (elim (look queue).0 [ returned r ↦ (returned r, (look queue).1) | waiting ↦ later ])

  -- `pop(timeout)`, the timeout in milliseconds; a wait that is cut off by it gives `None`.
  unfoldable pub pop :
      EventQueue Value → Option ℕ → List (List (Other Value)) → Popped Value × EventQueue Value
  unfolding wait
  pop queue none schedule = wait queue schedule
  pop queue (some zero) schedule = let (front, rest) = try_pop queue in (returned front, rest)
  pop queue (some (suc t)) schedule =
      let (popped, end) = wait queue schedule in (on_timeout popped, end)
    where
      on_timeout : Popped Value → Popped Value
      on_timeout (returned r) = returned r
      on_timeout waiting = returned none

  -- What a look at a closed queue gives.
  abbrev taken : EventQueue Value → Popped Value × EventQueue Value
  taken queue = (returned (try_pop queue).0, (try_pop queue).1)

  look_closed :
      (items : List (ServiceEvent Value))
      → look (record { items = items; closed = true })
        ≡ taken (record { items = items; closed = true })
  unfolding look try_pop
  look_closed [] = refl
  look_closed (e ∷ items) = refl

  wait_closed :
      (items : List (ServiceEvent Value)) (schedule : List (List (Other Value)))
      → wait (record { items = items; closed = true }) schedule
        ≡ taken (record { items = items; closed = true })
  unfolding wait try_pop
  wait_closed items [] = look_closed items
  wait_closed [] (batch ∷ schedule) = refl
  wait_closed (e ∷ items) (batch ∷ schedule) = refl

  pop_closed_at :
      (items : List (ServiceEvent Value)) (timeout : Option ℕ)
      (schedule : List (List (Other Value)))
      → pop (record { items = items; closed = true }) timeout schedule
        ≡ taken (record { items = items; closed = true })
  unfolding pop try_pop
  pop_closed_at items none schedule = wait_closed items schedule
  pop_closed_at items (some zero) schedule = refl
  pop_closed_at items (some (suc t)) schedule = rw (wait_closed items schedule)

  -- A closed queue never makes a consumer wait: `pop` hands out what is queued, oldest first, and
  -- then `None`, whatever the timeout and whatever other tasks do.
  pub pop_closed :
      (queue : EventQueue Value) (timeout : Option ℕ) (schedule : List (List (Other Value)))
      → queue.closed ≡ true
      → pop queue timeout schedule ≡ (returned (try_pop queue).0, (try_pop queue).1)
  pop_closed queue timeout schedule h =
      subst (λ q. pop q timeout schedule ≡ taken q)
        (λ i. record { items = queue.items; closed = sym h i })
        (pop_closed_at queue.items timeout schedule)
