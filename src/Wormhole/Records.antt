-- ===== src/Wormhole/Records.antt =====
-- The records of wormhole/tunnel.rs: `RecordWriter` and `RecordReader`, which put encrypted datagrams
-- on a stream under a nonce that counts them.
pub mod RoundTrip
pub mod Ordering
use ink_hole.Base.{
  ltb, ◌==◌, nat_eq_instance, length, any, int_eq_instance, u64_mod, option_eq_instance,
  text_eq_instance, ℕ, zero, suc, ◌+◌, ◌-◌, ◌*◌, ◌/◌, ◌%◌, Bool, true, false, not, ◌||◌, Option,
  none, some, List, [], ◌∷◌, ◌++◌,
}
use ink_hole.Errors.{
  CoreError, ErrorKind, Result, ok, err, protocol, crypto, io, unexpected_eof, connection_reset,
  connection_aborted, broken_pipe, plain, with_number, refuse_if, or_fail, ◌>>=◌, ◌>>◌,
}
use ink_hole.Protocol.Frames.{u32_bytes, read_u32, read_exact}

abbrev pub max_datagram : ℕ
max_datagram = 64 * 1024

abbrev pub nonce_size : ℕ
nonce_size = 24

abbrev pub tag_size : ℕ
tag_size = 16

abbrev pub max_record : ℕ
max_record = nonce_size + tag_size + max_datagram

-- The cipher under one key: XSalsa20Poly1305 of crypto_secretbox, of a nonce and a text.
pub record Cipher : Type 0 where
  pub encrypt : List ℕ → List ℕ → Option (List ℕ)
  pub decrypt : List ℕ → List ℕ → Option (List ℕ)

-- `to_be_bytes` of so many bytes, and `from_be_bytes`.
unfoldable pub be_bytes : ℕ → ℕ → List ℕ
be_bytes zero n = []
be_bytes (suc k) n = be_bytes k (n / 256) ++ (n % 256) ∷ []

unfoldable pub from_be_bytes : ℕ → List ℕ → ℕ
from_be_bytes high [] = high
from_be_bytes high (b ∷ bs) = from_be_bytes (high * 256 + b) bs

abbrev pub zeros : ℕ → List ℕ
zeros zero = []
zeros (suc n) = 0 ∷ zeros n

unfoldable pub nonce_of : ℕ → List ℕ
unfolding be_bytes
nonce_of counter = zeros (nonce_size - 8) ++ be_bytes 8 counter

-- `nonce[..n]` and `nonce[n..]`.
unfoldable pub take : ℕ → List ℕ → List ℕ
take zero xs = []
take (suc n) [] = []
take (suc n) (x ∷ xs) = x ∷ take n xs

unfoldable pub drop : ℕ → List ℕ → List ℕ
drop zero xs = xs
drop (suc n) [] = []
drop (suc n) (x ∷ xs) = drop n xs

unfoldable pub is_out_of_order : ℕ → List ℕ → Bool
is_out_of_order counter nonce =
    any (λ b. not (b == 0)) (take (nonce_size - 8) nonce)
    || not (from_be_bytes 0 (drop (nonce_size - 8) nonce) == counter)

module _ (cipher : Cipher) where
  -- The bytes written and the next counter. A writer that has failed is not used again.
  unfoldable pub write_record : ℕ → List ℕ → Result (List ℕ × ℕ)
  unfolding nonce_of
  write_record counter payload = do
    refuse_if (ltb max_datagram (length payload) || counter == u64_mod - 1)
        (protocol (plain "UDP tunnel record is too large"))
    let nonce = nonce_of counter
    ciphertext ←
        or_fail (cipher.encrypt nonce payload) (crypto (plain "encrypt UDP tunnel record failed"))
    let record_len = nonce_size + length ciphertext
    refuse_if (ltb max_record record_len) (protocol (plain "UDP tunnel record exceeded limit"))
    ok (u32_bytes record_len ++ nonce ++ ciphertext, counter + 1)

  -- The payload, the next counter, and what is left of the stream.
  unfoldable pub read : ℕ → List ℕ → Result (List ℕ × ℕ × List ℕ)
  read counter stream = do
    (record_len, after) ← read_u32 stream
    refuse_if (ltb record_len (nonce_size + tag_size) || ltb max_record record_len)
        (protocol (with_number "invalid UDP tunnel record length: {}" record_len))
    (nonce, following) ← read_exact nonce_size after
    refuse_if (is_out_of_order counter nonce) (protocol (plain "UDP tunnel nonce is out of order"))
    (ciphertext, rest) ← read_exact (record_len - nonce_size) following
    payload ←
        or_fail (cipher.decrypt nonce ciphertext)
          (crypto (plain "decrypt UDP tunnel record failed"))
    ok (payload, (counter + 1) % u64_mod, rest)

  -- The loop of `spawn_record_writer` over the payloads that it takes from its queue, batch by batch.
  unfoldable pub write_records : ℕ → List (List ℕ) → Result (List ℕ × ℕ)
  write_records counter [] = ok ([], counter)
  write_records counter (payload ∷ payloads) = do
    (written, next) ← write_record counter payload
    (later, end) ← write_records next payloads
    ok (written ++ later, end)

  -- The loop of `spawn_record_reader`: what it sends to its channel, until a read fails, which it
  -- sends as well. Each record takes bytes, so that the length of the stream is fuel enough.
  unfoldable pub read_records : ℕ → ℕ → List ℕ → List (List ℕ) × Option CoreError
  read_records zero counter stream = ([], none)
  read_records (suc fuel) counter stream = elim (read counter stream) [
    | err e ↦ ([], some e)
    | ok (payload, next, rest) ↦
        let (payloads, end) = read_records fuel next rest in (payload ∷ payloads, end)
  ]

-- `stream_ended`: the errors that end a tunnel without failing it.
unfoldable pub stream_ended : CoreError → Bool
stream_ended (io unexpected_eof) = true
stream_ended (io connection_reset) = true
stream_ended (io connection_aborted) = true
stream_ended (io broken_pipe) = true
stream_ended _ = false
