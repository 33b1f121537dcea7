-- ===== src/Protocol/Authentication/Exchange.antt =====
-- The handshake from both sides.
use ink_hole.Base.{
  ◌==◌, nat_eq_instance, length, int_eq_instance, option_eq_instance, Text, text_eq, text_eq_iff,
  text_eq_instance, ℕ, ◌≡◌, refl, sym, ap, subst, ◌∙◌, true, false, not, ◌||◌, some, List, arith,
}
use ink_hole.Errors.{ok, or_fail, >>=-eq-ok, refuse-eq-ok, then-eq-ok, or_fail-eq-ok, ok-inj}
use ink_hole.Protocol.Hex.{valid_hex_nonce}
use ink_hole.Protocol.Authentication.{
  AuthenticationHello, AuthenticationChallenge, AuthenticatedRequest, Crates, auth_nonce_bytes,
  authenticated_request_type, authentication_failed, validate_hello, validate_challenge,
  validate_challenge_for, constant_time_eq, new_challenge, authentication_mac, new_request,
  to_array, authenticate,
}
use ink_hole.Protocol.Authentication.Comparison.{are_bytes, constant_time_eq_iff}

-- What the code relies on: a keyed hash is an array of 32 bytes, and hexadecimal text stands for the
-- bytes it was made from.
pub record IsFaithful {Value : Type 0} (crates : Crates Value) : Type 0 where
  pub hash_length : (key message : List ℕ) → length (crates.keyed_hash key message) ≡ 32
  pub hash_bytes : (key message : List ℕ) → are_bytes (crates.keyed_hash key message) ≡ true
  pub decode-encode :
      (bs : List ℕ) → are_bytes bs ≡ true → crates.hex_decode (crates.hex_encode bs) ≡ some bs
  pub decode_bytes :
      (text : Text) (bs : List ℕ) → crates.hex_decode text ≡ some bs → are_bytes bs ≡ true
  pub encode_nonce :
      (bs : List ℕ) (n : ℕ)
      → are_bytes bs ≡ true
      → length bs ≡ n
      → valid_hex_nonce (crates.hex_encode bs) n ≡ true

fields_match :
    (challenge : AuthenticationChallenge)
    → (not (authenticated_request_type == authenticated_request_type)
        || not (challenge.protocol_version == challenge.protocol_version)
        || not (challenge.client_nonce == challenge.client_nonce)
        || not (challenge.nonce == challenge.nonce))
      ≡ false
unfolding text_eq
fields_match challenge = ground (
  arith,
  text_eq_iff challenge.client_nonce challenge.client_nonce,
  text_eq_iff challenge.nonce challenge.nonce,
)

to_array_of : (bs : List ℕ) → length bs ≡ 32 → to_array bs ≡ some bs
unfolding to_array
to_array_of bs h = ground arith

of_to_array : (bs cs : List ℕ) → to_array bs ≡ some cs → (cs ≡ bs) × (length cs ≡ 32)
unfolding to_array
of_to_array bs cs h = ground arith

module _ {Value : Type 0} (crates : Crates Value) (faithful : IsFaithful crates) where
  mac_array :
      (version : ℕ) (client_nonce challenge : Text) (payload : Value) (secret : Text) (mac : List ℕ)
      → authentication_mac crates version client_nonce challenge payload secret ≡ ok mac
      → (length mac ≡ 32) × (are_bytes mac ≡ true)
  unfolding authentication_mac
  mac_array version client_nonce challenge payload secret mac h =
      let (encoded, _, e) =
        >>=-eq-ok (crates.request_json version client_nonce challenge payload) _ h in
      subst (λ m. (length m ≡ 32) × (are_bytes m ≡ true)) (ok-inj e)
        (faithful.hash_length _ _, faithful.hash_bytes _ _)

  fields_equal :
      (request : AuthenticatedRequest Value) (challenge : AuthenticationChallenge)
      → (not (request.frame_type == authenticated_request_type)
          || not (request.protocol_version == challenge.protocol_version)
          || not (request.client_nonce == challenge.client_nonce)
          || not (request.challenge == challenge.nonce))
        ≡ false
      → (request.protocol_version ≡ challenge.protocol_version)
        × (request.client_nonce ≡ challenge.client_nonce)
        × (request.challenge ≡ challenge.nonce)
  fields_equal request challenge h = ground (
    arith,
    text_eq_iff request.client_nonce challenge.client_nonce,
    text_eq_iff request.challenge challenge.nonce,
  )

  -- A challenge that is made for a hello, from 32 random bytes, is accepted by the peer that sent
  -- the hello and by the one that made the challenge.
  pub challenge_accepted :
      (hello : AuthenticationHello) (nonce : List ℕ) (challenge : AuthenticationChallenge)
      → are_bytes nonce ≡ true
      → length nonce ≡ auth_nonce_bytes
      → new_challenge crates hello nonce ≡ ok challenge
      → (validate_challenge_for challenge hello ≡ ok tt) × (validate_challenge challenge ≡ ok tt)
  unfolding new_challenge validate_challenge_for validate_challenge validate_hello text_eq
  challenge_accepted hello nonce challenge b n h =
      let (valid, made) = then-eq-ok (validate_hello hello) _ h in
      subst (λ c. (validate_challenge_for c hello ≡ ok tt) × (validate_challenge c ≡ ok tt))
        (ok-inj made)
        (ground (
          arith,
          valid,
          faithful.encode_nonce nonce auth_nonce_bytes b n,
          text_eq_iff hello.nonce hello.nonce,
        ))

  -- A request made for a challenge with the shared secret is accepted by the peer that sent the
  -- challenge, and gives the payload back.
  pub authenticate-new_request :
      (challenge : AuthenticationChallenge) (payload : Value) (secret : Text)
      (request : AuthenticatedRequest Value)
      → new_request crates challenge (ok payload) secret ≡ ok request
      → authenticate crates request challenge secret ≡ ok payload
  unfolding new_request authenticate
  authenticate-new_request challenge payload secret request h =
      let (valid, h1) = then-eq-ok (validate_challenge challenge) _ h in
      let (mac, hashed, h2) =
        >>=-eq-ok
          (authentication_mac crates challenge.protocol_version challenge.client_nonce
            challenge.nonce payload secret)
          _ h1 in
      let (n, b) = mac_array _ _ _ _ _ mac hashed in
      subst (λ r. authenticate crates r challenge secret ≡ ok payload) (ok-inj h2)
        (rw (
          valid,
          fields_match challenge,
          faithful.decode-encode mac b,
          to_array_of mac n,
          hashed,
          (constant_time_eq_iff mac mac b b refl).1 refl,
        ))

  -- A request is accepted only if it repeats the version and both nonces of the challenge and carries
  -- the code that the shared secret gives for them and for the payload that is handed on.
  pub authenticate_sound :
      (request : AuthenticatedRequest Value) (challenge : AuthenticationChallenge) (secret : Text)
      (payload : Value)
      → authenticate crates request challenge secret ≡ ok payload
      → (payload ≡ request.payload)
        × (request.protocol_version ≡ challenge.protocol_version)
        × (request.challenge ≡ challenge.nonce)
        × (request.client_nonce ≡ challenge.client_nonce)
        × (mac : List ℕ) × (authentication_mac crates challenge.protocol_version
              challenge.client_nonce challenge.nonce payload secret
            ≡ ok mac)
        × (crates.hex_decode request.mac ≡ some mac)
  unfolding authenticate
  authenticate_sound request challenge secret payload h =
      let (valid, h1) = then-eq-ok (validate_challenge challenge) _ h in
      let (fields, h2) = refuse-eq-ok _ _ _ h1 in
      let (decoded, d, h3) =
        >>=-eq-ok (or_fail (crates.hex_decode request.mac) authentication_failed) _ h2 in
      let (received, r, h4) = >>=-eq-ok (or_fail (to_array decoded) authentication_failed) _ h3 in
      let (mac, hashed, h5) =
        >>=-eq-ok
          (authentication_mac crates request.protocol_version request.client_nonce request.challenge
            request.payload secret)
          _ h4 in
      let (same, done) = refuse-eq-ok (not (constant_time_eq received mac)) _ _ h5 in
      let (rb, rn) = of_to_array decoded received (or_fail-eq-ok (to_array decoded) _ r) in
      let (mn, mb) = mac_array _ _ _ _ _ mac hashed in
      let decoding : crates.hex_decode request.mac ≡ some received =
        or_fail-eq-ok (crates.hex_decode request.mac) _ d ∙ ap some (sym rb) in
      let code : received ≡ mac =
        (constant_time_eq_iff received mac (faithful.decode_bytes request.mac received decoding) mb
            (omega arith)).0
          (ground arith) in
      let (version, client, server) = fields_equal request challenge fields in
      (
        sym (ok-inj done),
        version,
        server,
        client,
        mac,
        cc (hashed, version, client, server, ok-inj done),
        decoding ∙ ap some code,
      )
