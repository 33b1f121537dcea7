-- ===== src/Service/EventQueue.antt =====
-- The queue of events between the service and its consumer, `EventQueue` of service.rs.
pub mod Removal
pub mod Outcomes
pub mod Lossless
pub mod Bounds
pub mod Snapshots
pub mod Waiting
use mathlib.Core.Option
use ink_hole.Base.{
  leb, if◌then◌else◌, Eq, ◌==◌, nat_eq_instance, length, int_eq_instance, option_eq_instance,
  position, remove_at, Text, codes, text_eq, text_eq_iff, text_eq_instance, ℕ, ◌*◌, ◌≡◌, inl, inr,
  Bool, true, false, not, ◌&&◌, ◌||◌, Option, none, some, List, [], ◌∷◌, ◌++◌, map, or_true,
}

abbrev pub droppable_event_capacity : ℕ
droppable_event_capacity = 128

abbrev pub max_snapshot_queue_capacity : ℕ
max_snapshot_queue_capacity = droppable_event_capacity * 8

-- `Value` is `serde_json::Value`.
pub record ServiceEvent (Value : Type 0) : Type 0 where
  pub event : Text
  pub payload : Value

-- `EventQueueState` under its lock.
pub record EventQueue (Value : Type 0) : Type 0 where
  pub items : List (ServiceEvent Value)
  pub closed : Bool

unfoldable pub droppable_event : Text → Bool
droppable_event name = name == codes "lan.progress" || name == codes "lan.status"

unfoldable pub snapshot_event : Text → Bool
snapshot_event name = name == codes "lan.peers"

-- No event is both dropped under pressure and a snapshot.
pub droppable-snapshot : (name : Text) → droppable_event name ≡ true → snapshot_event name ≡ false
unfolding droppable_event snapshot_event text_eq
droppable-snapshot name h = elim (or_true _ _ h) [
  | inl e ↦ rw ((text_eq_iff name (codes "lan.progress")).0 e)
  | inr e ↦ rw ((text_eq_iff name (codes "lan.status")).0 e)
]

module _ {Value : Type 0} where
  abbrev pub is_droppable : ServiceEvent Value → Bool
  is_droppable e = droppable_event e.event

  abbrev pub is_snapshot : ServiceEvent Value → Bool
  is_snapshot e = snapshot_event e.event

  -- What may be neither dropped nor replaced.
  abbrev pub is_critical : ServiceEvent Value → Bool
  is_critical e = not (is_droppable e || is_snapshot e)

  unfoldable pub new : EventQueue Value
  new = record { items = []; closed = false }

  -- `iter_mut().find(p)` and the assignment through what it finds.
  unfoldable pub replace_first :
      (ServiceEvent Value → Bool)
      → ServiceEvent Value
      → List (ServiceEvent Value)
      → Option (List (ServiceEvent Value))
  replace_first p e [] = none
  replace_first p e (q ∷ qs) =
      if p q then some (e ∷ qs) else Option.map (λ rest. q ∷ rest) (replace_first p e qs)

  -- With nothing droppable to drop, a queue at its limit loses its oldest snapshot instead; `none`
  -- if it has none.
  unfoldable pub displace_snapshot : List (ServiceEvent Value) → Option (List (ServiceEvent Value))
  displace_snapshot items =
      if leb max_snapshot_queue_capacity (length items)
      then Option.map (λ index. remove_at index items) (position is_snapshot items)
      else some items

  -- The queue that a snapshot is appended to; `none` if the snapshot is given up.
  unfoldable pub make_room : List (ServiceEvent Value) → Option (List (ServiceEvent Value))
  unfolding displace_snapshot
  make_room items =
      if leb droppable_event_capacity (length items)
      then (elim (position is_droppable items) [
        | some index ↦ some (remove_at index items)
        | none ↦ displace_snapshot items
      ])
      else displace_snapshot items

  unfoldable pub pop_front :
      List (ServiceEvent Value) → Option (ServiceEvent Value) × List (ServiceEvent Value)
  pop_front [] = (none, [])
  pop_front (e ∷ rest) = (some e, rest)

  unfoldable pub try_pop : EventQueue Value → Option (ServiceEvent Value) × EventQueue Value
  unfolding pop_front
  try_pop queue =
      let (front, rest) = pop_front queue.items in (front, record queue { items = rest })

  unfoldable pub clear : EventQueue Value → EventQueue Value
  clear queue = record queue { items = [] }

  unfoldable pub close : EventQueue Value → EventQueue Value
  close queue = record queue { closed = true }

-- `index v k` is `v[k]`.
module _ {Value : Type 0} ⦃value_eq : Eq Value⦄ (index : Value → Text → Value) where
  unfoldable pub same_snapshot_stream : ServiceEvent Value → ServiceEvent Value → Bool
  same_snapshot_stream left right =
      left.event == right.event
      && index left.payload (codes "session_id") == index right.payload (codes "session_id")

  unfoldable pub emit_snapshot : EventQueue Value → ServiceEvent Value → EventQueue Value × Bool
  emit_snapshot queue event =
      elim (replace_first (λ queued. same_snapshot_stream queued event) event queue.items) [
        | some items ↦ (record queue { items = items }, true)
        | none ↦ elim (make_room queue.items) [
          | some items ↦ (record queue { items = items ++ event ∷ [] }, true)
          | none ↦ (queue, false)
        ]
      ]

  unfoldable pub emit_open : EventQueue Value → ServiceEvent Value → EventQueue Value × Bool
  unfolding emit_snapshot
  emit_open queue event =
      if is_snapshot event
      then emit_snapshot queue event
      else if is_droppable event && leb droppable_event_capacity (length queue.items)
      then (queue, false)
      else (record queue { items = queue.items ++ event ∷ [] }, true)

  -- The new queue, and whether a waiting consumer is notified.
  unfoldable pub emit : EventQueue Value → ServiceEvent Value → EventQueue Value × Bool
  unfolding emit_open
  emit queue event = if queue.closed then (queue, false) else emit_open queue event
