-- ===== src/Ssh/Pairing/Budget.antt =====
-- How often, and by how many at a time, a pairing code can be tried.
use ink_hole.Base.{
  leb, ◌==◌, nat_eq_instance, int_eq_instance, option_eq_instance, Text, text_eq_iff,
  text_eq_instance, ℕ, suc, ◌+◌, ◌-◌, ◌≤◌, ◌<◌, ◌≡◌, refl, sym, ap, subst, ◌∙◌, Bool, true, false,
  not, none, some, List, [], ◌∷◌, arith, if_elim,
}
use ink_hole.Errors.{Result, ok, err, >>=-eq-ok, refuse-eq-ok, ok-inj}
use ink_hole.Ssh.Pairing.{
  max_pairing_attempts, ActivePairing, new_pairing, is_live, begin, finish, Slot, create_pairing,
  begin_pairing_attempt, finish_pairing_attempt,
}

-- What may happen while no new code is made.
pub data Attempt : Type 0 where
  starts : (now : ℕ) → Attempt
  ends : (code : Text) → (success : Bool) → Attempt

-- How many attempts are let through.
unfoldable pub granted : Slot → List Attempt → ℕ
granted slot [] = 0
granted slot (starts now ∷ attempts) = elim (begin_pairing_attempt slot now) [
  | ok (code, next) ↦ suc (granted next attempts)
  | err e ↦ granted slot attempts
]
granted slot (ends code success ∷ attempts) =
    granted (finish_pairing_attempt slot code success) attempts

abbrev running : Bool → ℕ
running true = 1
running false = 0

-- How many attempts a slot still allows.
abbrev pub left : Slot → ℕ
left none = 0
left (some p) = max_pairing_attempts - (p.failed_attempts + running p.in_use)

begin-left :
    (p next : ActivePairing) (now : ℕ) (code : Text)
    → begin p now ≡ ok (code, next)
    → (code ≡ p.code)
      × (next ≡ record p { in_use = true })
      × (p.in_use ≡ false)
      × (p.failed_attempts < max_pairing_attempts)
unfolding begin
begin-left p next now code h =
    let (_, h1) = refuse-eq-ok (not (is_live p now)) _ _ h in
    let (idle, h2) = refuse-eq-ok p.in_use _ _ h1 in
    let (budget, e) = refuse-eq-ok (leb max_pairing_attempts p.failed_attempts) _ _ h2 in
    (ap (λ q. q.0) (sym (ok-inj e)), ap (λ q. q.1) (sym (ok-inj e)), idle, ground arith)

begin_pairing_attempt-left :
    (slot next : Slot) (now : ℕ) (code : Text)
    → begin_pairing_attempt slot now ≡ ok (code, next)
    → suc (left next) ≤ left slot
unfolding begin_pairing_attempt
begin_pairing_attempt-left none next now code h = cc
begin_pairing_attempt-left (some p) next now code h =
    let ((c, q), begun, e) = >>=-eq-ok (begin p now) _ h in
    let (_, taken, idle, budget) = begin-left p q now c begun in
    subst (λ s. suc (left s) ≤ left (some p)) (ap (λ r. r.1) (ok-inj e))
      (subst (λ r. suc (left (some r)) ≤ left (some p)) (sym taken) (rw idle (omega arith)))

fewer_left :
    (failed : ℕ) (in_use : Bool)
    → max_pairing_attempts - (failed + 1 + 0) ≤ max_pairing_attempts - (failed + running in_use)
fewer_left failed true = omega arith
fewer_left failed false = omega arith

finish_pairing_attempt-left :
    (slot : Slot) (code : Text) (success : Bool)
    → left (finish_pairing_attempt slot code success) ≤ left slot
unfolding finish_pairing_attempt finish
finish_pairing_attempt-left none code success = omega arith
finish_pairing_attempt-left (some p) code true = ground arith
finish_pairing_attempt-left (some p) code false =
    if_elim (λ s. left s ≤ left (some p)) (p.code == code)
      (λ _.
        if_elim (λ s. left s ≤ left (some p)) (leb max_pairing_attempts (p.failed_attempts + 1))
          (λ _. omega arith) (λ _. fewer_left p.failed_attempts p.in_use))
      (λ _. omega arith)

granted_start :
    (slot : Slot) (now : ℕ) (attempts : List Attempt) (r : Result (Text × Slot))
    → begin_pairing_attempt slot now ≡ r
    → ((next : Slot) → granted next attempts ≤ left next)
    → (elim r [ ok (code, next) ↦ suc (granted next attempts) | err e ↦ granted slot attempts ])
      ≤ left slot
granted_start slot now attempts (ok (code, next)) h k =
    omega (arith, k next, begin_pairing_attempt-left slot next now code h)
granted_start slot now attempts (err e) h k = k slot

granted-left : (slot : Slot) (attempts : List Attempt) → granted slot attempts ≤ left slot
unfolding granted
granted-left slot [] = omega arith
granted-left slot (starts now ∷ attempts) =
    granted_start slot now attempts (begin_pairing_attempt slot now) refl
      (λ next. granted-left next attempts)
granted-left slot (ends code success ∷ attempts) = omega (
  arith,
  granted-left (finish_pairing_attempt slot code success) attempts,
  finish_pairing_attempt-left slot code success,
)

-- While no new code is made, whoever reaches the relay and whatever the outcomes, a pairing code is
-- tried at most five times.
pub granted_bound :
    (code : Text) (expires_at : ℕ) (attempts : List Attempt)
    → granted (some (new_pairing code expires_at)) attempts ≤ max_pairing_attempts
unfolding new_pairing
granted_bound code expires_at attempts =
    omega (arith, granted-left (some (new_pairing code expires_at)) attempts)

abbrev pub is_refused {ℓ} : {A : Type ℓ} → Result A → Bool
is_refused (ok a) = false
is_refused (err e) = true

abbrev pub deadline : Slot → ℕ
deadline none = 0
deadline (some p) = p.expires_at

-- What a slot is after an attempt was let through.
began :
    (slot next : Slot) (now : ℕ) (code : Text)
    → begin_pairing_attempt slot now ≡ ok (code, next)
    → (p : ActivePairing) × (next ≡ some (record p { in_use = true })) × (p.code ≡ code)
unfolding begin_pairing_attempt
began none next now code h = cc
began (some p) next now code h =
    let ((c, q), begun, e) = >>=-eq-ok (begin p now) _ h in
    let (same, taken, _, _) = begin-left p q now c begun in
    (p, ap (λ r. r.1) (sym (ok-inj e)) ∙ ap some taken, sym same ∙ ap (λ r. r.0) (ok-inj e))

busy_begin :
    (p : ActivePairing) (later : ℕ)
    → is_refused (begin_pairing_attempt (some (record p { in_use = true })) later) ≡ true
unfolding begin_pairing_attempt begin
busy_begin p later = ground arith

busy_create :
    (p : ActivePairing) (generated : Result Text) (later : ℕ)
    → later < p.expires_at
    → is_refused (create_pairing (some (record p { in_use = true })) true generated later) ≡ true
unfolding create_pairing is_live
busy_create p generated later h = ground arith

-- While an attempt that was let through has not ended, no other one is let through, at any time.
pub begin_exclusive :
    (slot next : Slot) (now later : ℕ) (code : Text)
    → begin_pairing_attempt slot now ≡ ok (code, next)
    → is_refused (begin_pairing_attempt next later) ≡ true
begin_exclusive slot next now later code h =
    let (p, e, _) = began slot next now code h in
    subst (λ s. is_refused (begin_pairing_attempt s later) ≡ true) (sym e) (busy_begin p later)

-- While an attempt that was let through has not ended and its code has not expired, no new code takes
-- the place of the old one.
pub create_pairing_exclusive :
    (slot next : Slot) (now later : ℕ) (code : Text) (generated : Result Text)
    → begin_pairing_attempt slot now ≡ ok (code, next)
    → later < deadline next
    → is_refused (create_pairing next true generated later) ≡ true
create_pairing_exclusive slot next now later code generated h =
    let (p, e, _) = began slot next now code h in
    subst (λ s. later < deadline s → is_refused (create_pairing s true generated later) ≡ true)
      (sym e) (busy_create p generated later)

used_up :
    (p : ActivePairing) (code : Text) (later : ℕ)
    → p.code ≡ code
    → is_refused (
        begin_pairing_attempt
          (finish_pairing_attempt (some (record p { in_use = true })) code true)
          later)
      ≡ true
unfolding finish_pairing_attempt finish begin_pairing_attempt
used_up p code later h = rw ((text_eq_iff p.code code).1 h)

-- An attempt that was let through and succeeds uses its code up: nothing more is let through.
pub finish_pairing_attempt_single_use :
    (slot next : Slot) (now later : ℕ) (code : Text)
    → begin_pairing_attempt slot now ≡ ok (code, next)
    → is_refused (begin_pairing_attempt (finish_pairing_attempt next code true) later) ≡ true
finish_pairing_attempt_single_use slot next now later code h =
    let (p, e, c) = began slot next now code h in
    subst
      (λ s. is_refused (begin_pairing_attempt (finish_pairing_attempt s code true) later) ≡ true)
      (sym e) (used_up p code later c)
