-- ===== src/Wormhole/Peer.antt =====
-- `run_sender` of wormhole/tunnel.rs: which local address the tunnel answers to. What is sent to this
-- address is what a turn gives back; that the socket fails to send it, which ends the loop, is left out.
use ink_hole.Base.{
  ltb, if◌then◌else◌, Bool-cases, Eq, ◌==◌, nat_eq_instance, all, int_eq_instance,
  option_eq_instance, text_eq_instance, ℕ, ◌+◌, ◌-◌, ◌<◌, ◌≡◌, refl, ◌≢◌, inl, inr, Bool, true,
  false, not, ◌&&◌, Option, none, some, List, [], ◌∷◌, ◌++◌, arith, if_elim, all-append,
}
use ink_hole.Errors.{CoreError, Result, ok, err}
use ink_hole.Wormhole.Records.{stream_ended}

-- In milliseconds, as all times here.
abbrev pub peer_idle_replace : ℕ
peer_idle_replace = 5000

-- What a turn of `select!` receives. `Address` is `SocketAddr`.
pub data Turn (Address : Type 0) : Type 0 where
  cancelled resets_closed resets records_closed : Turn Address
  writer_ends : Result (Unit {0}) → Turn Address
  socket_fails : CoreError → Turn Address
  hears : (datagram : List ℕ) → (address : Address) → (now : ℕ) → Turn Address
  carries : Result (List ℕ) → Turn Address

-- What the loop does: it queues a datagram for the stream, or sends a payload to an address.
pub data Action (Address : Type 0) : Type 0 where
  queues : List ℕ → Action Address
  sends : List ℕ → Address → Action Address

-- The address that is answered to, and when it was last heard.
abbrev pub Latch : Type 0 → Type 0
Latch Address = Option (Address × ℕ)

-- The end of a turn: the loop goes on, or returns.
pub data TurnEnd (Address : Type 0) : Type 0 where
  goes_on : Latch Address → List (Action Address) → TurnEnd Address
  returns : Result (Unit {0}) → TurnEnd Address

module _ {Address : Type 0} ⦃same : Eq Address⦄ (is_loopback : Address → Bool) where
  -- Whether another address holds the tunnel.
  abbrev pub is_held : Latch Address → Address → ℕ → Bool
  is_held none address now = false
  is_held (some (existing, last_seen)) address now =
      not (existing == address) && ltb (now - last_seen) peer_idle_replace

  abbrev pub answer : Latch Address → List ℕ → List (Action Address)
  answer none payload = []
  answer (some (address, _)) payload = sends payload address ∷ []

  unfoldable pub step : Latch Address → Turn Address → TurnEnd Address
  step peer cancelled = returns (ok tt)
  step peer resets_closed = returns (ok tt)
  step peer records_closed = returns (ok tt)
  step peer (writer_ends result) = returns result
  step peer (socket_fails e) = returns (err e)
  step peer resets = goes_on none []
  step peer (hears datagram address now) =
      if not (is_loopback address)
      then goes_on peer []
      else if is_held peer address now
      then goes_on peer []
      else goes_on (some (address, now)) (queues datagram ∷ [])
  step peer (carries (ok payload)) = goes_on peer (answer peer payload)
  step peer (carries (err e)) = if stream_ended e then returns (ok tt) else returns (err e)

  abbrev pub follow :
      TurnEnd Address
      → (Latch Address → List (Action Address) × Option (Result (Unit {0})))
      → List (Action Address) × Option (Result (Unit {0}))
  follow (returns result) later = ([], some result)
  follow (goes_on next actions) later = (actions ++ (later next).0, (later next).1)

  -- The loop over the turns that occur: what it has done, and what it has returned, if it has.
  unfoldable pub run :
      Latch Address → List (Turn Address) → List (Action Address) × Option (Result (Unit {0}))
  run peer [] = ([], none)
  run peer (turn ∷ turns) = follow (step peer turn) (λ next. run next turns)

  abbrev pub is_local : Latch Address → Bool
  is_local none = true
  is_local (some (address, _)) = is_loopback address

  -- That nothing is sent to an address outside this host.
  abbrev pub stays_local : Action Address → Bool
  stays_local (queues datagram) = true
  stays_local (sends payload address) = is_loopback address

  abbrev KeepsLocal : TurnEnd Address → Type 0
  KeepsLocal (goes_on next actions) = (is_local next ≡ true) × (all stays_local actions ≡ true)
  KeepsLocal (returns result) = Unit

  answer-stays_local :
      (peer : Latch Address) (payload : List ℕ)
      → is_local peer ≡ true
      → all stays_local (answer peer payload) ≡ true
  answer-stays_local none payload h = refl
  answer-stays_local (some (address, now)) payload h = ground arith

  step-KeepsLocal :
      (peer : Latch Address) (turn : Turn Address)
      → is_local peer ≡ true
      → KeepsLocal (step peer turn)
  unfolding step
  step-KeepsLocal peer cancelled h = tt
  step-KeepsLocal peer resets_closed h = tt
  step-KeepsLocal peer records_closed h = tt
  step-KeepsLocal peer (writer_ends result) h = tt
  step-KeepsLocal peer (socket_fails e) h = tt
  step-KeepsLocal peer resets h = (refl, refl)
  step-KeepsLocal peer (hears datagram address now) h =
      if_elim KeepsLocal (not (is_loopback address)) (λ _. (h, refl))
        (λ inside.
          if_elim KeepsLocal (is_held peer address now) (λ _. (h, refl))
            (λ _. (ground arith, refl)))
  step-KeepsLocal peer (carries (ok payload)) h = (h, answer-stays_local peer payload h)
  step-KeepsLocal peer (carries (err e)) h = if_elim KeepsLocal (stream_ended e) (λ _. tt) (λ _. tt)

  follow-stays_local :
      (turn_end : TurnEnd Address)
      (later : Latch Address → List (Action Address) × Option (Result (Unit {0})))
      → KeepsLocal turn_end
      → ((next : Latch Address) → is_local next ≡ true → all stays_local (later next).0 ≡ true)
      → all stays_local (follow turn_end later).0 ≡ true
  follow-stays_local (returns result) later h k = refl
  follow-stays_local (goes_on next actions) later (n, a) k =
      ground (arith, a, k next n, all-append stays_local actions (later next).0)

  -- Of a tunnel that answers to no address yet, or to one of this host: whatever it hears and in
  -- whatever order, what it takes from the stream goes only to addresses of this host.
  pub run-stays_local :
      (peer : Latch Address) (turns : List (Turn Address))
      → is_local peer ≡ true
      → all stays_local (run peer turns).0 ≡ true
  unfolding run
  run-stays_local peer [] h = refl
  run-stays_local peer (turn ∷ turns) h =
      follow-stays_local (step peer turn) (λ next. run next turns) (step-KeepsLocal peer turn h)
        (λ next local. run-stays_local next turns local)

  -- An address that was heard holds the tunnel: another one that is heard less than five seconds
  -- later changes nothing.
  pub step_held :
      (existing address : Address) (last_seen now : ℕ) (datagram : List ℕ)
      → existing ≢ address
      → now < last_seen + peer_idle_replace
      → step (some (existing, last_seen)) (hears datagram address now)
        ≡ goes_on (some (existing, last_seen)) []
  unfolding step
  step_held existing address last_seen now datagram other soon =
      if_elim (λ p. p ≡ goes_on (some (existing, last_seen)) []) (not (is_loopback address))
        (λ _. refl) (λ _. rw (apart, in_time))
    where
      apart : not (existing == address) ≡ true
      apart = elim (Bool-cases (existing == address)) [
        | inl e ↦ absurd (other ((same.beq_iff existing address).0 e))
        | inr e ↦ rw e
      ]

      in_time : ltb (now - last_seen) peer_idle_replace ≡ true
      in_time = ground arith
