-- ===== src/Ssh/Pairing.antt =====
-- `ActivePairing` of ssh/session.rs, the budget of one pairing code, and the operations of
-- `SshRelaySession` on the code that is active.
pub mod Budget
use ink_hole.Base.{
  ltb, leb, if◌then◌else◌, ◌==◌, nat_eq_instance, int_eq_instance, option_eq_instance, Text,
  text_eq_instance, ℕ, ◌+◌, ◌*◌, String, Bool, true, false, not, ◌&&◌, Option, none, some,
}
use ink_hole.Errors.{CoreError, Result, ok, err, protocol, plain, refuse_if, ◌>>=◌, ◌>>◌}

abbrev pub max_pairing_attempts : ℕ
max_pairing_attempts = 5

-- In milliseconds, as all times here: ten minutes.
abbrev pub pairing_lifetime : ℕ
pairing_lifetime = 10 * 60 * 1000

pub record ActivePairing : Type 0 where
  pub code : Text
  pub expires_at : ℕ
  pub in_use : Bool
  pub failed_attempts : ℕ

abbrev refused : String → CoreError
refused message = protocol (plain message)

unfoldable pub new_pairing : Text → ℕ → ActivePairing
new_pairing code expires_at = record {
  code = code;
  expires_at = expires_at;
  in_use = false;
  failed_attempts = 0;
}

unfoldable pub is_live : ActivePairing → ℕ → Bool
is_live pairing now = ltb now pairing.expires_at

-- `begin`: the code to use, and the pairing, now in use.
unfoldable pub begin : ActivePairing → ℕ → Result (Text × ActivePairing)
unfolding is_live
begin pairing now = do
  refuse_if (not (is_live pairing now)) (refused "SSH pairing code is unavailable")
  refuse_if pairing.in_use (refused "SSH pairing is already in progress")
  refuse_if (leb max_pairing_attempts pairing.failed_attempts)
      (refused "SSH pairing code was invalidated after repeated failed attempts; create a new code")
  ok (pairing.code, record pairing { in_use = true })

-- `finish`: whether the code is to be discarded, and the pairing.
unfoldable pub finish : ActivePairing → Bool → Bool × ActivePairing
finish pairing true = (true, pairing)
finish pairing false = (
  leb max_pairing_attempts (pairing.failed_attempts + 1),
  record pairing { in_use = false; failed_attempts = pairing.failed_attempts + 1 },
)

-- `pairing` of a session, under its lock.
abbrev pub Slot : Type 0
Slot = Option ActivePairing

-- `is_some_and(|active| active.in_use && active.is_live(now))`.
abbrev is_busy : Slot → ℕ → Bool
is_busy none now = false
is_busy (some active) now = active.in_use && is_live active now

-- The code is the one that `generate_pair_code` gives, or its error.
unfoldable pub create_pairing : Slot → Bool → Result Text → ℕ → Result (Text × Slot)
create_pairing slot is_connected generated now = do
  refuse_if (not is_connected) (refused "SSH relay is reconnecting")
  refuse_if (is_busy slot now) (refused "SSH pairing is already in progress")
  code ← generated
  ok (code, some (new_pairing code (now + pairing_lifetime)))

unfoldable pub begin_pairing_attempt : Slot → ℕ → Result (Text × Slot)
begin_pairing_attempt none now = err (refused "SSH pairing code is unavailable")
begin_pairing_attempt (some active) now = do
  (code, pairing) ← begin active now
  ok (code, some pairing)

unfoldable pub finish_pairing_attempt : Slot → Text → Bool → Slot
finish_pairing_attempt none code success = none
finish_pairing_attempt (some active) code success =
    let (discard, pairing) = finish active success in
    if active.code == code then if discard then none else some pairing else some active
