-- ===== src/Protocol/Authentication.antt =====
-- The handshake by which two peers show that they hold the same secret: `AuthenticationHello`,
-- `AuthenticationChallenge` and `AuthenticatedRequest` of protocol.rs.
pub mod Comparison
pub mod Exchange
use Prim.Native.Nat.{bit_or, bit_xor}
use ink_hole.Base.{
  if◌then◌else◌, ◌==◌, nat_eq_instance, length, int_eq_instance, option_eq_instance, Text, codes,
  bytes, text_eq_instance, ℕ, Bool, not, ◌||◌, Option, none, some, List, [], ◌∷◌, ◌++◌,
}
use ink_hole.Errors.{
  CoreError, Result, ok, err, protocol, plain, with_number, refuse_if, or_fail, ◌>>=◌, ◌>>◌,
}
use ink_hole.Protocol.Hex.{valid_hex_nonce}

abbrev pub quic_protocol_version : ℕ
quic_protocol_version = 2

abbrev pub auth_nonce_bytes : ℕ
auth_nonce_bytes = 32

abbrev auth_key_context : Text
auth_key_context = codes "com.rexvane.inkhole.quic.shared-secret.v2"

-- The domain ends in a NUL byte.
abbrev pub auth_request_domain : List ℕ
auth_request_domain = codes "inkhole/quic/authenticated-request/v2" ++ 0 ∷ []

abbrev pub auth_hello_type : Text
auth_hello_type = codes "auth_hello"

abbrev pub auth_challenge_type : Text
auth_challenge_type = codes "auth_challenge"

abbrev pub authenticated_request_type : Text
authenticated_request_type = codes "authenticated_request"

pub record AuthenticationHello : Type 0 where
  pub frame_type : Text
  pub protocol_version : ℕ
  pub nonce : Text

pub record AuthenticationChallenge : Type 0 where
  pub frame_type : Text
  pub protocol_version : ℕ
  pub client_nonce : Text
  pub nonce : Text

-- `Value` is `serde_json::Value`.
pub record AuthenticatedRequest (Value : Type 0) : Type 0 where
  pub frame_type : Text
  pub protocol_version : ℕ
  pub client_nonce : Text
  pub challenge : Text
  pub payload : Value
  pub mac : Text

abbrev pub auth_rejected_type : Text
auth_rejected_type = codes "auth_rejected"

pub record AuthenticationRejected : Type 0 where
  pub frame_type : Text
  pub reason : Text

-- `AuthenticationRejected::new`, the answer to a request that was not authenticated: it does not say
-- which of the tests failed.
abbrev pub new_rejected : AuthenticationRejected
new_rejected = record {
  frame_type = auth_rejected_type;
  reason = codes "shared secret authentication failed";
}

abbrev pub authentication_failed : CoreError
authentication_failed = protocol (plain "shared secret authentication failed")

-- What the code takes from the crates serde_json, blake3 and hex.
pub record Crates (Value : Type 0) : Type 0 where
  -- The JSON of an `AuthenticatableRequest`.
  pub request_json : ℕ → Text → Text → Value → Result (List ℕ)
  pub derive_key : Text → List ℕ → List ℕ
  pub keyed_hash : List ℕ → List ℕ → List ℕ
  pub hex_encode : List ℕ → Text
  pub hex_decode : Text → Option (List ℕ)

unfoldable pub validate_hello : AuthenticationHello → Result (Unit {0})
validate_hello hello =
    refuse_if
      (not (hello.frame_type == auth_hello_type)
        || not (hello.protocol_version == quic_protocol_version)
        || not (valid_hex_nonce hello.nonce auth_nonce_bytes))
      authentication_failed

unfoldable pub validate_challenge : AuthenticationChallenge → Result (Unit {0})
validate_challenge challenge =
    refuse_if
      (not (challenge.frame_type == auth_challenge_type)
        || not (challenge.protocol_version == quic_protocol_version)
        || not (valid_hex_nonce challenge.client_nonce auth_nonce_bytes)
        || not (valid_hex_nonce challenge.nonce auth_nonce_bytes))
      authentication_failed

unfoldable pub validate_challenge_for :
    AuthenticationChallenge → AuthenticationHello → Result (Unit {0})
validate_challenge_for challenge hello = do
  validate_hello hello
  refuse_if (not (challenge.frame_type == auth_challenge_type)) authentication_failed
  refuse_if (not (challenge.protocol_version == quic_protocol_version)) (
      protocol (
        with_number "unsupported QUIC authentication protocol version {}"
          challenge.protocol_version))
  refuse_if
      (not (challenge.client_nonce == hello.nonce)
        || not (valid_hex_nonce challenge.client_nonce auth_nonce_bytes)
        || not (valid_hex_nonce challenge.nonce auth_nonce_bytes))
      authentication_failed

-- `fold(0, |difference, (left, right)| difference | (left ^ right))` over the zipped arrays.
unfoldable pub differences : ℕ → List ℕ → List ℕ → ℕ
differences difference [] right = difference
differences difference (l ∷ left) [] = difference
differences difference (l ∷ left) (r ∷ right) =
    differences (bit_or difference (bit_xor l r)) left right

unfoldable pub constant_time_eq : List ℕ → List ℕ → Bool
constant_time_eq left right = differences 0 left right == 0

-- `try_into` of a `Vec<u8>` to an array of 32 bytes.
unfoldable pub to_array : List ℕ → Option (List ℕ)
to_array received = if length received == 32 then some received else none

module _ {Value : Type 0} (crates : Crates Value) where
  open crates use {request_json, derive_key, keyed_hash, hex_encode, hex_decode}

  -- The nonce is the argument: 32 random bytes.
  unfoldable pub new_hello : List ℕ → AuthenticationHello
  new_hello nonce = record {
    frame_type = auth_hello_type;
    protocol_version = quic_protocol_version;
    nonce = hex_encode nonce;
  }

  unfoldable pub new_challenge : AuthenticationHello → List ℕ → Result AuthenticationChallenge
  new_challenge hello nonce = do
    validate_hello hello
    ok (record {
      frame_type = auth_challenge_type;
      protocol_version = quic_protocol_version;
      client_nonce = hello.nonce;
      nonce = hex_encode nonce;
    })

  unfoldable pub authentication_mac : ℕ → Text → Text → Value → Text → Result (List ℕ)
  authentication_mac protocol_version client_nonce challenge payload shared_secret = do
    encoded ← request_json protocol_version client_nonce challenge payload
    let key = derive_key auth_key_context (bytes shared_secret)
    ok (keyed_hash key (auth_request_domain ++ encoded))

  -- `payload` is what `serde_json::to_value` made of the request.
  unfoldable pub new_request :
      AuthenticationChallenge → Result Value → Text → Result (AuthenticatedRequest Value)
  new_request challenge to_value shared_secret = do
    validate_challenge challenge
    payload ← to_value
    mac ←
        authentication_mac challenge.protocol_version challenge.client_nonce challenge.nonce payload
          shared_secret
    ok (record {
      frame_type = authenticated_request_type;
      protocol_version = challenge.protocol_version;
      client_nonce = challenge.client_nonce;
      challenge = challenge.nonce;
      payload = payload;
      mac = hex_encode mac;
    })

  unfoldable pub authenticate :
      AuthenticatedRequest Value → AuthenticationChallenge → Text → Result Value
  authenticate request expected shared_secret = do
    validate_challenge expected
    refuse_if
        (not (request.frame_type == authenticated_request_type)
          || not (request.protocol_version == expected.protocol_version)
          || not (request.client_nonce == expected.client_nonce)
          || not (request.challenge == expected.nonce))
        authentication_failed
    decoded ← or_fail (hex_decode request.mac) authentication_failed
    received ← or_fail (to_array decoded) authentication_failed
    mac ←
        authentication_mac request.protocol_version request.client_nonce request.challenge
          request.payload shared_secret
    refuse_if (not (constant_time_eq received mac)) authentication_failed
    ok request.payload
