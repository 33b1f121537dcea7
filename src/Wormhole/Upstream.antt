-- ===== src/Wormhole/Upstream.antt =====
-- `run_receiver` of wormhole/tunnel.rs, the other end of the tunnel, which speaks with the local QUIC
-- endpoint only.
use ink_hole.Base.{
  if◌then◌else◌, Eq, ◌==◌, nat_eq_instance, int_eq_instance, option_eq_instance, text_eq_instance,
  ℕ, ◌≡◌, refl, ap, Bool, true, false, not, Option, none, some, List, [], ◌∷◌, ◌++◌,
}
use ink_hole.Errors.{CoreError, Result, ok, err}
use ink_hole.Wormhole.Records.{stream_ended}
use ink_hole.Wormhole.Peer.{Action, queues, sends}

-- What a turn of `select!` receives.
pub data Arrival (Address : Type 0) : Type 0 where
  cancelled records_closed : Arrival Address
  writer_ends : Result (Unit {0}) → Arrival Address
  socket_fails : CoreError → Arrival Address
  hears : (datagram : List ℕ) → (address : Address) → Arrival Address
  carries : Result (List ℕ) → Arrival Address

-- The end of a turn: the loop goes on, or returns.
pub data Response (Address : Type 0) : Type 0 where
  goes_on : List (Action Address) → Response Address
  returns : Result (Unit {0}) → Response Address

module _ {Address : Type 0} ⦃same : Eq Address⦄ (upstream : Address) where
  unfoldable pub respond : Arrival Address → Response Address
  respond cancelled = returns (ok tt)
  respond records_closed = returns (ok tt)
  respond (writer_ends result) = returns result
  respond (socket_fails e) = returns (err e)
  respond (hears datagram address) =
      if not (address == upstream) then goes_on [] else goes_on (queues datagram ∷ [])
  respond (carries (ok payload)) = goes_on (sends payload upstream ∷ [])
  respond (carries (err e)) = if stream_ended e then returns (ok tt) else returns (err e)

  abbrev proceed :
      Response Address
      → List (Action Address) × Option (Result (Unit {0}))
      → List (Action Address) × Option (Result (Unit {0}))
  proceed (returns result) (later, end) = ([], some result)
  proceed (goes_on actions) (later, end) = (actions ++ later, end)

  -- The loop over what arrives: what it has done, and what it has returned, if it has.
  unfoldable pub run_receiver :
      List (Arrival Address) → List (Action Address) × Option (Result (Unit {0}))
  unfolding respond
  run_receiver [] = ([], none)
  run_receiver (arrival ∷ arrivals) = proceed (respond arrival) (run_receiver arrivals)

  -- What the endpoint says, and what it is sent.
  abbrev pub said : List (Arrival Address) → List (List ℕ)
  said [] = []
  said (hears datagram address ∷ arrivals) =
      let rest = said arrivals in if address == upstream then datagram ∷ rest else rest
  said (_ ∷ arrivals) = said arrivals

  abbrev pub queued : List (Action Address) → List (List ℕ)
  queued [] = []
  queued (queues datagram ∷ actions) = datagram ∷ queued actions
  queued (sends payload address ∷ actions) = queued actions

  heard :
      (b : Bool) (datagram : List ℕ) (later : List (Action Address) × Option (Result (Unit {0})))
      (words : List (List ℕ))
      → (later.1 ≡ none → queued later.0 ≡ words)
      → (proceed (if not b then goes_on [] else goes_on (queues datagram ∷ [])) later).1 ≡ none
      → queued (proceed (if not b then goes_on [] else goes_on (queues datagram ∷ [])) later).0
        ≡ (if b then datagram ∷ words else words)
  heard true datagram later words k h = ap (λ ws. datagram ∷ ws) (k h)
  heard false datagram later words k h = k h

  ended :
      (b : Bool) (e : CoreError) (later : List (Action Address) × Option (Result (Unit {0})))
      (words : List (List ℕ))
      → (proceed (if b then returns (ok tt) else returns (err e)) later).1 ≡ none
      → queued (proceed (if b then returns (ok tt) else returns (err e)) later).0 ≡ words
  ended true e later words h = cc
  ended false e later words h = cc

  -- While the loop runs, the datagrams that it puts on the stream are those of the endpoint, all of
  -- them and in their order: no other process can put one in.
  pub run_receiver-said :
      (arrivals : List (Arrival Address))
      → (run_receiver arrivals).1 ≡ none
      → queued (run_receiver arrivals).0 ≡ said arrivals
  unfolding run_receiver respond
  run_receiver-said [] h = refl
  run_receiver-said (cancelled ∷ arrivals) h = cc
  run_receiver-said (records_closed ∷ arrivals) h = cc
  run_receiver-said (writer_ends result ∷ arrivals) h = cc
  run_receiver-said (socket_fails e ∷ arrivals) h = cc
  run_receiver-said (hears datagram address ∷ arrivals) h =
      heard (address == upstream) datagram (run_receiver arrivals) (said arrivals)
        (run_receiver-said arrivals) h
  run_receiver-said (carries (ok payload) ∷ arrivals) h = run_receiver-said arrivals h
  run_receiver-said (carries (err e) ∷ arrivals) h =
      ended (stream_ended e) e (run_receiver arrivals) (said arrivals) h
