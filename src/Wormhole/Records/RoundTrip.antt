-- ===== src/Wormhole/Records/RoundTrip.antt =====
-- The reader reads what the writer has written.
use ink_hole.Base.{
  ltb, ◌==◌, nat_eq_instance, length, length-append, int_eq_instance, u64_mod, option_eq_instance,
  text_eq_instance, ℕ, zero, suc, ◌+◌, ◌-◌, ◌*◌, ◌/◌, ◌%◌, ◌≤◌, ◌<◌, ◌≡◌, refl, sym, ap, subst, ◌∙◌,
  ◌≢◌, false, not, ◌||◌, some, List, [], ◌∷◌, ◌++◌, arith,
}
use mathlib.Core.List.{append_assoc}
use ink_hole.Errors.{ok, or_fail, >>=-eq-ok, refuse-eq-ok, or_fail-eq-ok, ok-inj}
use ink_hole.Protocol.Frames.{u32_bytes, read_exact}
use ink_hole.Protocol.Frames.RoundTrip.{read_u32-u32_bytes, read_exact-append}
use ink_hole.Wormhole.Records.{
  max_datagram, nonce_size, tag_size, max_record, Cipher, be_bytes, from_be_bytes, nonce_of, take,
  drop, is_out_of_order, write_record, read,
}

-- What is relied on: decryption undoes encryption, which adds a tag of 16 bytes.
pub record IsSealing (cipher : Cipher) : Type 0 where
  pub opens :
      (nonce payload ciphertext : List ℕ)
      → cipher.encrypt nonce payload ≡ some ciphertext
      → cipher.decrypt nonce ciphertext ≡ some payload
  pub tagged :
      (nonce payload ciphertext : List ℕ)
      → cipher.encrypt nonce payload ≡ some ciphertext
      → length ciphertext ≡ length payload + tag_size

abbrev byte_range : ℕ → ℕ
byte_range zero = 1
byte_range (suc k) = byte_range k * 256

from_be_bytes-snoc :
    (high : ℕ) (bs : List ℕ) (b : ℕ)
    → from_be_bytes high (bs ++ b ∷ []) ≡ from_be_bytes high bs * 256 + b
unfolding from_be_bytes
from_be_bytes-snoc high [] b = refl
from_be_bytes-snoc high (c ∷ bs) b = from_be_bytes-snoc (high * 256 + c) bs b

pub from_be_bytes-be_bytes : (k n : ℕ) → n < byte_range k → from_be_bytes 0 (be_bytes k n) ≡ n
unfolding from_be_bytes be_bytes
from_be_bytes-be_bytes zero n h = omega arith
from_be_bytes-be_bytes (suc k) n h =
    let high = from_be_bytes-be_bytes k (n / 256) (omega arith) in
    from_be_bytes-snoc 0 (be_bytes k (n / 256)) (n % 256) ∙ omega arith

length-be_bytes : (k n : ℕ) → length (be_bytes k n) ≡ k
unfolding be_bytes
length-be_bytes zero n = refl
length-be_bytes (suc k) n =
    omega (arith, length-append (be_bytes k (n / 256)) (n % 256 ∷ []), length-be_bytes k (n / 256))

pub length-nonce_of : (counter : ℕ) → length (nonce_of counter) ≡ nonce_size
unfolding nonce_of
length-nonce_of counter = omega (arith, length-be_bytes 8 counter)

-- Which counter a reader accepts the nonce of another counter at.
pub is_out_of_order-nonce_of :
    (expected counter : ℕ)
    → counter < u64_mod
    → is_out_of_order expected (nonce_of counter) ≡ not (counter == expected)
unfolding is_out_of_order nonce_of take drop
is_out_of_order-nonce_of expected counter h =
    ap (λ n. not (n == expected)) (from_be_bytes-be_bytes 8 counter h)

-- What a successful write has done.
pub record Written (cipher : Cipher) (counter : ℕ) (payload written : List ℕ) (next : ℕ)
    : Type 0 where
  pub ciphertext : List ℕ
  pub sealed : cipher.encrypt (nonce_of counter) payload ≡ some ciphertext
  pub record_bound : nonce_size + length ciphertext ≤ max_record
  pub not_last : counter ≢ u64_mod - 1
  pub bytes_written :
      written ≡ u32_bytes (nonce_size + length ciphertext) ++ nonce_of counter ++ ciphertext
  pub counted : next ≡ counter + 1

within : (n limit : ℕ) → ltb limit n ≡ false → n ≤ limit
within n limit h = ground arith

may_count :
    (n counter : ℕ) → (ltb max_datagram n || counter == u64_mod - 1) ≡ false → counter ≢ u64_mod - 1
may_count n counter h = ground arith

pub write_record-Written :
    (cipher : Cipher) (counter : ℕ) (payload written : List ℕ) (next : ℕ)
    → write_record cipher counter payload ≡ ok (written, next)
    → Written cipher counter payload written next
unfolding write_record
write_record-Written cipher counter payload written next h =
    let (small, h1) =
      refuse-eq-ok (ltb max_datagram (length payload) || counter == u64_mod - 1) _ _ h in
    let (ct, sealed, h2) = >>=-eq-ok (or_fail (cipher.encrypt (nonce_of counter) payload) _) _ h1 in
    let (bound, h3) = refuse-eq-ok (ltb max_record (nonce_size + length ct)) _ _ h2 in
    record {
      ciphertext = ct;
      sealed = or_fail-eq-ok (cipher.encrypt (nonce_of counter) payload) _ sealed;
      record_bound = within (nonce_size + length ct) max_record bound;
      not_last = may_count (length payload) counter small;
      bytes_written = ap (λ p. p.0) (sym (ok-inj h3));
      counted = ap (λ p. p.1) (sym (ok-inj h3));
    }

pub read_exact_of :
    (n : ℕ) (xs rest : List ℕ) → length xs ≡ n → read_exact n (xs ++ rest) ≡ ok (xs, rest)
read_exact_of n xs rest e =
    subst (λ m. read_exact m (xs ++ rest) ≡ ok (xs, rest)) e (read_exact-append xs rest)

same : (n : ℕ) → not (n == n) ≡ false
same n = ground arith

-- How the parts of a record are found in a stream.
pub record_in_stream :
    (counter : ℕ) (ct rest : List ℕ)
    → ((u32_bytes (nonce_size + length ct) ++ nonce_of counter ++ ct) ++ rest)
      ≡ u32_bytes (nonce_size + length ct) ++ (nonce_of counter ++ (ct ++ rest))
record_in_stream counter ct rest =
    append_assoc (u32_bytes (nonce_size + length ct) ++ nonce_of counter) ct rest
    ∙ append_assoc (u32_bytes (nonce_size + length ct)) (nonce_of counter) (ct ++ rest)

pub fitting :
    (n : ℕ)
    → tag_size ≤ n
    → nonce_size + n ≤ max_record
    → (ltb (nonce_size + n) (nonce_size + tag_size) || ltb max_record (nonce_size + n)) ≡ false
fitting n h k = ground arith

module _ (cipher : Cipher) (sealing : IsSealing cipher) where
  pub long_enough :
      (counter : ℕ) (payload written : List ℕ) (next : ℕ)
      (w : Written cipher counter payload written next)
      → tag_size ≤ length w.ciphertext
  long_enough counter payload written next w =
      omega (arith, sealing.tagged (nonce_of counter) payload w.ciphertext w.sealed)

  read_sealed :
      (counter : ℕ) (payload written rest : List ℕ) (next : ℕ)
      → counter < u64_mod
      → (w : Written cipher counter payload written next)
      → read cipher counter (
          u32_bytes (nonce_size + length w.ciphertext)
          ++ (nonce_of counter ++ (w.ciphertext ++ rest)))
        ≡ ok (payload, (counter + 1) % u64_mod, rest)
  unfolding read
  read_sealed counter payload written rest next h w =
      let n = length w.ciphertext in
      rw (
        read_u32-u32_bytes (nonce_size + n) (nonce_of counter ++ (w.ciphertext ++ rest))
            (omega (arith, w.record_bound)),
        fitting n (long_enough counter payload written next w) w.record_bound,
        read_exact_of nonce_size (nonce_of counter) (w.ciphertext ++ rest)
            (length-nonce_of counter),
        is_out_of_order-nonce_of counter counter h,
        same counter,
        read_exact_of (nonce_size + n - nonce_size) w.ciphertext rest (omega arith),
        sealing.opens (nonce_of counter) payload w.ciphertext w.sealed,
      )

  -- A record that was written is read back by a reader at the same counter, which counts on as the
  -- writer does, and leaves the rest of the stream.
  pub read-write_record :
      (counter : ℕ) (payload written rest : List ℕ) (next : ℕ)
      → counter < u64_mod
      → write_record cipher counter payload ≡ ok (written, next)
      → read cipher counter (written ++ rest) ≡ ok (payload, next, rest)
  read-write_record counter payload written rest next h done =
      let w = write_record-Written cipher counter payload written next done in
      let count : (counter + 1) % u64_mod ≡ next = omega (arith, w.not_last, w.counted) in
      ap (λ s. read cipher counter (s ++ rest)) w.bytes_written
      ∙ ap (read cipher counter) (record_in_stream counter w.ciphertext rest)
      ∙ read_sealed counter payload written rest next h w
      ∙ ap (λ m. ok (payload, m, rest)) count
