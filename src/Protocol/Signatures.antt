-- ===== src/Protocol/Signatures.antt =====
-- What offers and probes share: a device's description, and the check of a signature in base64.
use ink_hole.Base.{
  if◌then◌else◌, ◌==◌, nat_eq_instance, length, int_eq_instance, option_eq_instance, Text,
  text_eq_instance, ℕ, String, ◌≡◌, sym, ap, ◌∙◌, Bool, true, not, Option, none, some, List, arith,
}
use ink_hole.Errors.{
  CoreError, Result, ok, refuse_if, or_fail, ◌>>=◌, ◌>>◌, >>=-eq-ok, or_fail-eq-ok, refuse-eq-ok,
  refuse_if-eq-ok,
}

pub record DeviceSummary : Type 0 where
  pub instance_id : Text
  pub name : Text
  pub public_key : Text

-- What the code takes from the crates base64 and ed25519-dalek.
pub record Signatures : Type 0 where
  pub base64_decode : Text → Option (List ℕ)
  -- Whether 32 bytes are a key: `VerifyingKey::from_bytes`.
  pub from_bytes : List ℕ → Bool
  -- Of a key, a message and a signature.
  pub verify : List ℕ → List ℕ → List ℕ → Bool

-- `try_into` of a vector to an array.
unfoldable pub array_of : ℕ → List ℕ → Option (List ℕ)
array_of n xs = if length xs == n then some xs else none

-- The end of `validate` of an offer and of a probe's response; the errors are those of the caller.
unfoldable pub check_signature :
    Signatures
    → (invalid : String → CoreError) (bad_key bad_signature unverified : String)
    → (public_key signature : Text) → (signing_bytes : Result (List ℕ)) → Result (Unit {0})
check_signature signatures invalid bad_key bad_signature unverified public_key signature
      signing_bytes =
    do
      key ← or_fail (signatures.base64_decode public_key) (invalid bad_key)
      public_key ← or_fail (array_of 32 key) (invalid bad_key)
      decoded ← or_fail (signatures.base64_decode signature) (invalid bad_signature)
      signature ← or_fail (array_of 64 decoded) (invalid bad_signature)
      refuse_if (not (signatures.from_bytes public_key)) (invalid bad_key)
      message ← signing_bytes
      refuse_if (not (signatures.verify public_key message signature)) (invalid unverified)

-- That the key named by a text signed a message.
pub record IsSigned (signatures : Signatures) (public_key signature : Text) (message : List ℕ)
    : Type 0 where
  pub key : List ℕ
  pub signed : List ℕ
  pub key_decoded : signatures.base64_decode public_key ≡ some key
  pub signature_decoded : signatures.base64_decode signature ≡ some signed
  pub key_length : length key ≡ 32
  pub signature_length : length signed ≡ 64
  pub key_valid : signatures.from_bytes key ≡ true
  pub verified : signatures.verify key message signed ≡ true

array_of-eq-some : (n : ℕ) (xs ys : List ℕ) → array_of n xs ≡ some ys → (xs ≡ ys) × (length xs ≡ n)
unfolding array_of
array_of-eq-some n xs ys h = ground arith

array_of-length : (n : ℕ) (xs : List ℕ) → length xs ≡ n → array_of n xs ≡ some xs
unfolding array_of
array_of-length n xs h = ground arith

-- The check succeeds only on a signature of the bytes that it is given.
pub check_signature-eq-ok :
    (signatures : Signatures) (invalid : String → CoreError)
    (bad_key bad_signature unverified : String) (public_key signature : Text)
    (signing_bytes : Result (List ℕ))
    → check_signature signatures invalid bad_key bad_signature unverified public_key signature
        signing_bytes
      ≡ ok tt
    → (message : List ℕ) × (signing_bytes ≡ ok message)
      × IsSigned signatures public_key signature message
unfolding check_signature
check_signature-eq-ok signatures invalid bad_key bad_signature unverified public_key signature
      signing_bytes h =
    let (key, k, h1) =
      >>=-eq-ok (or_fail (signatures.base64_decode public_key) (invalid bad_key)) _ h in
    let (key', k', h2) = >>=-eq-ok (or_fail (array_of 32 key) (invalid bad_key)) _ h1 in
    let (sig, s, h3) =
      >>=-eq-ok (or_fail (signatures.base64_decode signature) (invalid bad_signature)) _ h2 in
    let (sig', s', h4) = >>=-eq-ok (or_fail (array_of 64 sig) (invalid bad_signature)) _ h3 in
    let (v, h5) = refuse-eq-ok (not (signatures.from_bytes key')) _ _ h4 in
    let (message, m, h6) = >>=-eq-ok signing_bytes _ h5 in
    let w = refuse_if-eq-ok (not (signatures.verify key' message sig')) _ h6 in
    let (ke, kl) = array_of-eq-some 32 key key' (or_fail-eq-ok (array_of 32 key) _ k') in
    let (se, sl) = array_of-eq-some 64 sig sig' (or_fail-eq-ok (array_of 64 sig) _ s') in
    (
      message,
      m,
      record {
        key = key';
        signed = sig';
        key_decoded = or_fail-eq-ok (signatures.base64_decode public_key) _ k ∙ ap some ke;
        signature_decoded = or_fail-eq-ok (signatures.base64_decode signature) _ s ∙ ap some se;
        key_length = ap length (sym ke) ∙ kl;
        signature_length = ap length (sym se) ∙ sl;
        key_valid = ground arith;
        verified = ground arith;
      },
    )

-- And it does succeed on one.
pub check_signature-IsSigned :
    (signatures : Signatures) (invalid : String → CoreError)
    (bad_key bad_signature unverified : String) (public_key signature : Text) (message : List ℕ)
    → IsSigned signatures public_key signature message
    → check_signature signatures invalid bad_key bad_signature unverified public_key signature
        (ok message)
      ≡ ok tt
unfolding check_signature
check_signature-IsSigned signatures invalid bad_key bad_signature unverified public_key signature
      message s =
    rw (
      s.key_decoded,
      array_of-length 32 s.key s.key_length,
      s.signature_decoded,
      array_of-length 64 s.signed s.signature_length,
      s.key_valid,
      s.verified,
    )
