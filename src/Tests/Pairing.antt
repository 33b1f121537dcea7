-- ===== src/Tests/Pairing.antt =====
-- Runs of the pairing of ssh/session.rs.
use ink_hole.Base.{
  nat_eq_instance, int_eq_instance, option_eq_instance, Text, codes, text_eq, text_eq_instance, ◌≤◌,
  ◌≡◌, refl, true, false, some, List, [], ◌∷◌,
}
use ink_hole.Ssh.Pairing.{
  new_pairing, is_live, begin, finish, Slot, begin_pairing_attempt, finish_pairing_attempt,
  max_pairing_attempts,
}
use ink_hole.Ssh.Pairing.Budget.{Attempt, starts, ends, granted, granted_bound}

abbrev code : Text
code = codes "31877-lake-river-moon-salt"

abbrev guesses : List Attempt
guesses = starts 10 ∷ ends code false ∷ starts 20 ∷ starts 21 ∷ ends code false ∷ starts 30 ∷ []

granted_bound_example : granted (some (new_pairing code 600_000)) guesses ≤ max_pairing_attempts
granted_bound_example = granted_bound code 600_000 guesses

-- The second start of two that overlap is refused.
guesses-granted : granted (some (new_pairing code 600_000)) guesses ≡ 3
unfolding granted new_pairing begin_pairing_attempt begin is_live finish_pairing_attempt finish
    text_eq
guesses-granted = refl

abbrev idle : Slot
idle = some (record { code = code; expires_at = 600_000; in_use = false; failed_attempts = 2 })

abbrev busy : Slot
busy = some (record { code = code; expires_at = 600_000; in_use = true; failed_attempts = 2 })
