-- ===== src/Tests/Handshake.antt =====
-- Runs of the handshake and of the frames of protocol.rs.
use ink_hole.Base.{
  ltb, if◌then◌else◌, Bool-cases, nat_eq_instance, length, all, int_eq_instance, option_eq_instance,
  Text, codes, bytes, len, text_eq, text_eq_instance, ℕ, zero, suc, ◌+◌, ◌-◌, ◌*◌, ◌/◌, ◌%◌, ◌<◌,
  ◌≡◌, refl, inl, inr, true, ◌&&◌, Option, none, some, List, [], ◌∷◌, ◌++◌, arith,
}
use ink_hole.Errors.{Result, ok, err}
use ink_hole.Protocol.Hex.{hex_bytes, valid_hex_nonce, is_hex}
use ink_hole.Protocol.Authentication.{
  AuthenticationHello, AuthenticationChallenge, AuthenticatedRequest, Crates, auth_challenge_type,
  authenticated_request_type, quic_protocol_version, authentication_failed, validate_hello,
  validate_challenge, constant_time_eq, new_hello, new_challenge, authentication_mac, new_request,
  authenticate, to_array, differences, auth_request_domain,
}
use ink_hole.Protocol.Authentication.Comparison.{are_bytes}
use ink_hole.Protocol.Authentication.Exchange.{
  IsFaithful, authenticate-new_request, authenticate_sound,
}
use ink_hole.Protocol.Frames.{read_frame, write_frame, u32_bytes}
use ink_hole.Protocol.Frames.RoundTrip.{read_frame-write_frame}

-- A hash that sums what it reads, and hexadecimal text with two digits for each byte.
abbrev digit : ℕ → ℕ
digit n = if ltb n 10 then b'0' + n else b'a' + (n - 10)

abbrev value_of : ℕ → ℕ
value_of c = if ltb c b'a' then c - b'0' else c - b'a' + 10

abbrev hex_encode : List ℕ → Text
hex_encode [] = []
hex_encode (b ∷ bs) = digit (b / 16) ∷ digit (b % 16) ∷ hex_encode bs

abbrev push : ℕ → Option (List ℕ) → Option (List ℕ)
push b none = none
push b (some bs) = some (b ∷ bs)

abbrev hex_decode : Text → Option (List ℕ)
hex_decode (h ∷ l ∷ text) =
    if is_hex h && is_hex l then push (value_of h * 16 + value_of l) (hex_decode text) else none
hex_decode (h ∷ []) = none
hex_decode [] = some []

digit_hex : (n : ℕ) → n < 16 → (is_hex (digit n) ≡ true) × (value_of (digit n) ≡ n)
digit_hex n h = ground arith

value_bound : (c : ℕ) → is_hex c ≡ true → value_of c < 16
value_bound c h = ground arith

digits_of : (b : ℕ) → b < 256 → value_of (digit (b / 16)) * 16 + value_of (digit (b % 16)) ≡ b
digits_of b h =
    let (_, high) = digit_hex (b / 16) (omega arith) in
    let (_, low) = digit_hex (b % 16) (omega arith) in omega arith

decode-encode : (bs : List ℕ) → are_bytes bs ≡ true → hex_decode (hex_encode bs) ≡ some bs
decode-encode [] h = refl
decode-encode (b ∷ bs) h =
    let (byte, rest) : (b < 256) × (are_bytes bs ≡ true) = ground arith in
    rw (
      (digit_hex (b / 16) (omega arith)).0,
      (digit_hex (b % 16) (omega arith)).0,
      decode-encode bs rest,
      digits_of b byte,
    )

push-some :
    (b : ℕ) (o : Option (List ℕ)) (bs : List ℕ)
    → push b o ≡ some bs
    → (cs : List ℕ) × (o ≡ some cs) × (bs ≡ b ∷ cs)
push-some b none bs h = cc
push-some b (some cs) bs h = (cs, refl, ground arith)

decode_bytes : (text : Text) (bs : List ℕ) → hex_decode text ≡ some bs → are_bytes bs ≡ true
decode_bytes [] bs e = ground arith
decode_bytes (h ∷ []) bs e = cc
decode_bytes (h ∷ l ∷ text) bs e = elim (Bool-cases (is_hex h && is_hex l)) [
  | inl hex ↦
      let (cs, d, made) =
        push-some (value_of h * 16 + value_of l) (hex_decode text) bs (rw hex at e) in
      ground
        (arith, decode_bytes text cs d, value_bound h (ground arith), value_bound l (ground arith))
  | inr other ↦ cc (rw other at e)
]

encode-length : (bs : List ℕ) → length (hex_encode bs) ≡ length bs * 2
encode-length [] = refl
encode-length (b ∷ bs) = omega (arith, encode-length bs)

encode_hex : (bs : List ℕ) → are_bytes bs ≡ true → all is_hex (hex_encode bs) ≡ true
encode_hex [] h = refl
encode_hex (b ∷ bs) h =
    let (byte, rest) : (b < 256) × (are_bytes bs ≡ true) = ground arith in
    ground (
      arith,
      digit_hex (b / 16) (omega arith),
      digit_hex (b % 16) (omega arith),
      encode_hex bs rest,
    )

encode_nonce :
    (bs : List ℕ) (n : ℕ)
    → are_bytes bs ≡ true
    → length bs ≡ n
    → valid_hex_nonce (hex_encode bs) n ≡ true
unfolding valid_hex_nonce len
encode_nonce bs n h k =
    let e = hex_bytes (hex_encode bs) (encode_hex bs h) in
    ground (arith, e, encode-length bs, encode_hex bs h)

abbrev zeros : ℕ → List ℕ
zeros zero = []
zeros (suc n) = 0 ∷ zeros n

abbrev sum : List ℕ → ℕ
sum [] = 0
sum (b ∷ bs) = b + sum bs

abbrev crates : Crates ℕ
crates = record {
  request_json = λ version client_nonce challenge payload. ok (payload ∷ client_nonce ++ challenge);
  derive_key = λ context secret. secret;
  keyed_hash = λ key message. (sum (key ++ message) % 256) ∷ zeros 31;
  hex_encode = hex_encode;
  hex_decode = hex_decode;
}

crates-IsFaithful : IsFaithful crates
crates-IsFaithful = record {
  hash_length = λ key message. refl;
  hash_bytes = λ key message. ground arith;
  decode-encode = decode-encode;
  decode_bytes = decode_bytes;
  encode_nonce = encode_nonce;
}

abbrev hello : AuthenticationHello
hello = new_hello crates (zeros 32)

abbrev challenge : AuthenticationChallenge
challenge = record {
  frame_type = auth_challenge_type;
  protocol_version = quic_protocol_version;
  client_nonce = hex_encode (zeros 32);
  nonce = hex_encode (5 ∷ zeros 31);
}

abbrev secret : Text
secret = codes "correct horse"

abbrev request : AuthenticatedRequest ℕ
request = record {
  frame_type = authenticated_request_type;
  protocol_version = quic_protocol_version;
  client_nonce = hex_encode (zeros 32);
  challenge = hex_encode (5 ∷ zeros 31);
  payload = 42;
  mac = hex_encode (
      crates.keyed_hash (bytes secret)
        (auth_request_domain ++ 42 ∷ challenge.client_nonce ++ challenge.nonce));
}

challenge_made : new_challenge crates hello (5 ∷ zeros 31) ≡ ok challenge
unfolding new_challenge new_hello validate_hello valid_hex_nonce len text_eq
challenge_made = refl

request_made : new_request crates challenge (ok 42) secret ≡ ok request
unfolding new_request validate_challenge authentication_mac valid_hex_nonce len text_eq bytes
request_made = refl

authenticate-new_request_example : authenticate crates request challenge secret ≡ ok 42
authenticate-new_request_example =
    authenticate-new_request crates crates-IsFaithful challenge 42 secret request request_made

authenticate_sound_example :
    (42 ≡ request.payload)
    × (request.protocol_version ≡ challenge.protocol_version)
    × (request.challenge ≡ challenge.nonce)
    × (request.client_nonce ≡ challenge.client_nonce)
    × (mac : List ℕ) × (authentication_mac crates challenge.protocol_version challenge.client_nonce
          challenge.nonce 42 secret
        ≡ ok mac)
    × (crates.hex_decode request.mac ≡ some mac)
authenticate_sound_example =
    authenticate_sound crates crates-IsFaithful request challenge secret 42
      authenticate-new_request_example

-- A request with a payload of its own is refused.
altered_is_refused :
    authenticate crates (record request { payload = 43 }) challenge secret
    ≡ err authentication_failed
unfolding authenticate validate_challenge authentication_mac valid_hex_nonce len text_eq bytes
    to_array constant_time_eq differences
altered_is_refused = refl

abbrev sent : List ℕ
sent = 1 ∷ 2 ∷ []

abbrev received : List ℕ
received = 1 ∷ 3 ∷ []

abbrev to_vec : ℕ → Result (List ℕ)
to_vec n = ok (n ∷ [])

abbrev from_slice : List ℕ → Result ℕ
from_slice bs = ok (sum bs)

read_frame-write_frame_example :
    read_frame to_vec from_slice ((0 ∷ 0 ∷ 0 ∷ 1 ∷ 42 ∷ []) ++ 9 ∷ []) ≡ ok (42, 9 ∷ [])
unfolding write_frame u32_bytes
read_frame-write_frame_example =
    read_frame-write_frame to_vec from_slice 42 (42 ∷ []) (0 ∷ 0 ∷ 0 ∷ 1 ∷ 42 ∷ []) (9 ∷ []) refl
      refl (omega arith) refl
