-- ===== src/Tests/Tunnel.antt =====
-- Runs of the tunnel of wormhole/tunnel.rs.
use ink_hole.Base.{
  ltb, nat_eq_instance, length, all, int_eq_instance, option_eq_instance, text_eq_instance, ℕ, zero,
  suc, ◌+◌, ◌≡◌, refl, subst, Bool, true, Option, none, some, List, [], ◌∷◌, ◌++◌, arith,
}
use ink_hole.Errors.{ok, io, unexpected_eof}
use ink_hole.Protocol.Frames.{u32_bytes}
use ink_hole.Wormhole.Records.{
  Cipher, zeros, be_bytes, nonce_of, write_record, write_records, read_records, tag_size,
}
use ink_hole.Wormhole.Records.RoundTrip.{IsSealing}
use ink_hole.Wormhole.Records.Ordering.{
  Piece, stream_of, read_records-in_order, read_records-write_records,
}
use ink_hole.Wormhole.Upstream
use ink_hole.Wormhole.Peer.{Turn, hears, carries, run, stays_local, run-stays_local}

-- A cipher that puts a tag of zeros in front.
cut : ℕ → List ℕ → Option (List ℕ)
cut zero xs = some xs
cut (suc n) [] = none
cut (suc n) (x ∷ xs) = cut n xs

abbrev cipher : Cipher
cipher = record {
  encrypt = λ nonce payload. some (zeros 16 ++ payload);
  decrypt = λ nonce ciphertext. cut 16 ciphertext;
}

some-inj : {xs ys : List ℕ} → some xs ≡ some ys → xs ≡ ys
some-inj h = cc

cipher-IsSealing : IsSealing cipher
unfolding cut
cipher-IsSealing = record {
  opens = λ nonce payload ciphertext h. subst (λ c. cut 16 c ≡ some payload) (some-inj h) refl;
  tagged = λ nonce payload ciphertext h.
      subst (λ c. length c ≡ length payload + tag_size) (some-inj h) (omega arith);
}

abbrev payloads : List (List ℕ)
payloads = (1 ∷ 2 ∷ []) ∷ (3 ∷ []) ∷ []

abbrev record_at : ℕ → List ℕ → List ℕ
record_at counter payload =
    u32_bytes (40 + length payload) ++ nonce_of counter ++ (zeros 16 ++ payload)

abbrev written : List ℕ
written = record_at 0 (1 ∷ 2 ∷ []) ++ (record_at 1 (3 ∷ []) ++ [])

payloads_written : write_records cipher 0 payloads ≡ ok (written, 2)
unfolding write_records write_record nonce_of be_bytes u32_bytes
payloads_written = refl

read_records-write_records_example :
    read_records cipher 3 0 written ≡ (payloads, some (io unexpected_eof))
read_records-write_records_example =
    read_records-write_records cipher cipher-IsSealing 0 payloads written 2 3 (omega arith)
      payloads_written (omega arith)

first_written : write_record cipher 0 (1 ∷ 2 ∷ []) ≡ ok (record_at 0 (1 ∷ 2 ∷ []), 1)
unfolding write_record nonce_of be_bytes u32_bytes
first_written = refl

second_written : write_record cipher 1 (3 ∷ []) ≡ ok (record_at 1 (3 ∷ []), 2)
unfolding write_record nonce_of be_bytes u32_bytes
second_written = refl

abbrev first : Piece cipher
first = record {
  counter = 0;
  payload = 1 ∷ 2 ∷ [];
  written = record_at 0 (1 ∷ 2 ∷ []);
  next = 1;
  counter_bound = omega arith;
  made = first_written;
}

abbrev second : Piece cipher
second = record {
  counter = 1;
  payload = 3 ∷ [];
  written = record_at 1 (3 ∷ []);
  next = 2;
  counter_bound = omega arith;
  made = second_written;
}

-- The first record is replayed behind the second.
abbrev replayed : List (Piece cipher)
replayed = first ∷ second ∷ first ∷ []

read_records-in_order_example :
    (read_records cipher 4 0 (stream_of replayed)).0 ≡ (1 ∷ 2 ∷ []) ∷ (3 ∷ []) ∷ []
read_records-in_order_example =
    read_records-in_order cipher cipher-IsSealing 4 0 replayed (omega arith)

-- Addresses are numbers here, and those below 10 are of this host.
abbrev is_loopback : ℕ → Bool
is_loopback address = ltb address 10

abbrev turns : List (Turn ℕ)
turns = hears (5 ∷ []) 77 0 ∷ hears (6 ∷ []) 3 1 ∷ carries (ok (8 ∷ [])) ∷ []

run-stays_local_example : all (stays_local is_loopback) (run is_loopback none turns).0 ≡ true
run-stays_local_example = run-stays_local is_loopback none turns refl

-- The endpoint has the address 3.
abbrev arrivals : List (Upstream.Arrival ℕ)
arrivals =
    Upstream.hears (5 ∷ []) 3
    ∷ Upstream.hears (6 ∷ []) 4
    ∷ Upstream.carries (ok (8 ∷ []))
    ∷ Upstream.hears (7 ∷ []) 3
    ∷ []
