-- ===== src/Errors.antt =====
-- rust/crates/inkhole-core/src/error.rs: `CoreError` and its `Result`.
use ink_hole.Base.{
  nat_eq_instance, int_eq_instance, option_eq_instance, Text, text_eq_instance, ℕ, String, ◌≡◌,
  refl, ◌⊎◌, inl, inr, Bool, true, false, Option, none, some,
}

-- A message of the source, with what `format!` puts into it.
pub data Message : Type 0 where
  plain : String → Message
  with_number : String → ℕ → Message
  with_numbers : String → ℕ → ℕ → Message
  with_text : String → Text → Message

-- The kinds of `std::io::Error` that the program tells apart.
pub data ErrorKind : Type 0 where
  not_found already_exists unexpected_eof connection_reset connection_aborted broken_pipe
        not_connected other :
      ErrorKind

pub data CoreError : Type 0 where
  invalid_request invalid_identity invalid_transfer quinn_config crypto protocol :
      Message → CoreError
  fingerprint_mismatch cancelled json quinn_connection quinn_connect quinn_write quinn_read :
      CoreError
  transfer_busy digest_mismatch : Text → CoreError
  io : ErrorKind → CoreError

pub data Result {ℓ} (T : Type ℓ) : Type ℓ where
  ok : (value : T) → Result T
  err : (error : CoreError) → Result T

-- `if refused { return Err(e) }`.
abbrev pub refuse_if : Bool → CoreError → Result (Unit {0})
refuse_if true e = err e
refuse_if false e = ok tt

-- `ok_or(e)?`.
abbrev pub or_fail {ℓ} : {A : Type ℓ} → Option A → CoreError → Result A
or_fail none e = err e
or_fail (some a) e = ok a

-- The `?` operator.
infixl 5 ◌>>=◌
abbrev pub ◌>>=◌ {ℓ κ} : {T : Type ℓ} {U : Type κ} (m : Result T) (next : T → Result U) → Result U
err error >>= next = err error
ok value >>= next = next value

-- Inversion of `m?` followed by a step that succeeds.
pub >>=-eq-ok {ℓ κ} :
    {T : Type ℓ} {U : Type κ} (m : Result T) (next : T → Result U) {u : U}
    → (m >>= next) ≡ ok u
    → (t : T) × (m ≡ ok t) × (next t ≡ ok u)
>>=-eq-ok (err error) next h = cc
>>=-eq-ok (ok value) next h = (value, refl, h)

infixl 5 ◌>>◌
abbrev pub ◌>>◌ {κ} : {U : Type κ} (m : Result (Unit {0})) (next : Result U) → Result U
err error >> next = err error
ok done >> next = next

pub refuse_if-eq-ok : (b : Bool) (e : CoreError) → refuse_if b e ≡ ok tt → b ≡ false
refuse_if-eq-ok true e h = cc
refuse_if-eq-ok false e h = refl

-- Inversion of `if b { return Err(e) }; k` that succeeds.
pub refuse-eq-ok {ℓ} :
    {A : Type ℓ} (b : Bool) (e : CoreError) (k : Result A) {a : A}
    → (refuse_if b e >> k) ≡ ok a
    → (b ≡ false) × (k ≡ ok a)
refuse-eq-ok true e k h = cc
refuse-eq-ok false e k h = (refl, h)

-- Inversion of `m?; k` that succeeds.
pub then-eq-ok {ℓ} :
    {A : Type ℓ} (m : Result (Unit {0})) (k : Result A) {a : A}
    → (m >> k) ≡ ok a
    → (m ≡ ok tt) × (k ≡ ok a)
then-eq-ok (ok tt) k h = (refl, h)
then-eq-ok (err e) k h = cc

pub or_fail-eq-ok {ℓ} :
    {A : Type ℓ} (o : Option A) (e : CoreError) {a : A} → or_fail o e ≡ ok a → o ≡ some a
or_fail-eq-ok none e h = cc
or_fail-eq-ok (some b) e h = cc

pub ok-inj {ℓ} : {A : Type ℓ} {a b : A} → ok a ≡ ok b → a ≡ b
ok-inj e = cc

-- A split on a result that keeps the equation.
pub Result-cases {ℓ} :
    {T : Type ℓ} (r : Result T) → ((e : CoreError) × (r ≡ err e)) ⊎ ((t : T) × (r ≡ ok t))
Result-cases (err e) = inl (e, refl)
Result-cases (ok t) = inr (t, refl)
