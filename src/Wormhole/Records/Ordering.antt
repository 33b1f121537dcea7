-- ===== src/Wormhole/Records/Ordering.antt =====
-- What a reader makes of records that were not written at its counter.
use ink_hole.Base.{
  if◌then◌else◌, nat_eq_iff, Bool-cases, ◌==◌, nat_eq_instance, length, int_eq_instance, u64_mod,
  option_eq_instance, text_eq_instance, ℕ, zero, suc, ◌+◌, ◌<◌, ◌≡◌, refl, ap, subst, ◌∙◌, inl, inr,
  true, false, not, some, List, [], ◌∷◌, ◌++◌, arith,
}
use ink_hole.Errors.{CoreError, ok, err, protocol, io, unexpected_eof, plain, >>=-eq-ok, ok-inj}
use ink_hole.Protocol.Frames.{u32_bytes, read_u32}
use ink_hole.Protocol.Frames.RoundTrip.{read_u32-u32_bytes}
use ink_hole.Wormhole.Records.{
  nonce_size, Cipher, nonce_of, write_record, read, write_records, read_records,
}
use ink_hole.Wormhole.Records.RoundTrip.{
  IsSealing, Written, write_record-Written, read_exact_of, record_in_stream, fitting, long_enough,
  length-nonce_of, is_out_of_order-nonce_of, read-write_record,
}

abbrev pub out_of_order : CoreError
out_of_order = protocol (plain "UDP tunnel nonce is out of order")

-- A record on its way: what was written, at which counter, for which payload.
pub record Piece (cipher : Cipher) : Type 0 where
  pub counter : ℕ
  pub payload : List ℕ
  pub written : List ℕ
  pub next : ℕ
  pub counter_bound : counter < u64_mod
  pub made : write_record cipher counter payload ≡ ok (written, next)

other_counter : (m n : ℕ) → (m == n) ≡ false → not (m == n) ≡ true
other_counter m n h = ground arith

module _ {cipher : Cipher} where
  -- The stream that pieces make up.
  abbrev pub stream_of : List (Piece cipher) → List ℕ
  stream_of [] = []
  stream_of (p ∷ ps) = p.written ++ stream_of ps

  -- The payloads of the pieces that come in order from a counter on.
  abbrev pub in_order : ℕ → List (Piece cipher) → List (List ℕ)
  in_order expected [] = []
  in_order expected (p ∷ ps) =
      let rest = in_order p.next ps in if p.counter == expected then p.payload ∷ rest else []

module _ (cipher : Cipher) (sealing : IsSealing cipher) where
  read_displaced :
      (expected counter : ℕ) (payload written rest : List ℕ) (next : ℕ)
      → counter < u64_mod
      → (counter == expected) ≡ false
      → (w : Written cipher counter payload written next)
      → read cipher expected (
          u32_bytes (nonce_size + length w.ciphertext)
          ++ (nonce_of counter ++ (w.ciphertext ++ rest)))
        ≡ err out_of_order
  unfolding read
  read_displaced expected counter payload written rest next h other w =
      let n = length w.ciphertext in
      rw (
        read_u32-u32_bytes (nonce_size + n) (nonce_of counter ++ (w.ciphertext ++ rest))
            (omega (arith, w.record_bound)),
        fitting n (long_enough cipher sealing counter payload written next w) w.record_bound,
        read_exact_of nonce_size (nonce_of counter) (w.ciphertext ++ rest)
            (length-nonce_of counter),
        is_out_of_order-nonce_of expected counter h,
        other_counter counter expected other,
      )

  read_piece_out_of_order :
      (expected : ℕ) (p : Piece cipher) (rest : List ℕ)
      → (p.counter == expected) ≡ false
      → read cipher expected (p.written ++ rest) ≡ err out_of_order
  read_piece_out_of_order expected p rest other =
      let w = write_record-Written cipher p.counter p.payload p.written p.next p.made in
      ap (λ s. read cipher expected (s ++ rest)) w.bytes_written
      ∙ ap (read cipher expected) (record_in_stream p.counter w.ciphertext rest)
      ∙ read_displaced expected p.counter p.payload p.written rest p.next p.counter_bound other w

  read_piece :
      (expected : ℕ) (p : Piece cipher) (rest : List ℕ)
      → (p.counter == expected) ≡ true
      → read cipher expected (p.written ++ rest) ≡ ok (p.payload, p.next, rest)
  read_piece expected p rest same =
      subst (λ n. read cipher n (p.written ++ rest) ≡ ok (p.payload, p.next, rest))
        ((nat_eq_iff p.counter expected).0 same)
        (read-write_record cipher sealing p.counter p.payload p.written rest p.next p.counter_bound
          p.made)

  read_records_nothing :
      (fuel expected : ℕ)
      → read_records cipher (suc fuel) expected [] ≡ ([], some (io unexpected_eof))
  unfolding read_records read read_u32
  read_records_nothing fuel expected = refl

  read_records_step :
      (fuel expected : ℕ) (stream payload rest : List ℕ) (next : ℕ)
      → read cipher expected stream ≡ ok (payload, next, rest)
      → read_records cipher (suc fuel) expected stream
        ≡ (payload ∷ (read_records cipher fuel next rest).0, (read_records cipher fuel next rest).1)
  unfolding read_records
  read_records_step fuel expected stream payload rest next h = rw (h, read_records)

  read_records_stop :
      (fuel expected : ℕ) (stream : List ℕ) (e : CoreError)
      → read cipher expected stream ≡ err e
      → read_records cipher (suc fuel) expected stream ≡ ([], some e)
  unfolding read_records
  read_records_stop fuel expected stream e h = rw (h, read_records)

  -- Whatever becomes of the records of a writer on their way, be they replayed, dropped or
  -- reordered, a reader with more fuel than there are records hands out the payloads that come in
  -- order, and stops at the first record that does not.
  pub read_records-in_order :
      (fuel expected : ℕ) (pieces : List (Piece cipher))
      → length pieces < fuel
      → (read_records cipher fuel expected (stream_of pieces)).0 ≡ in_order expected pieces
  read_records-in_order zero expected pieces h = absurd (omega arith)
  read_records-in_order (suc fuel) expected [] h =
      ap (λ r. r.0) (read_records_nothing fuel expected)
  read_records-in_order (suc fuel) expected (p ∷ ps) h = elim (Bool-cases (p.counter == expected)) [
    | inl same ↦
        ap (λ r. r.0)
          (read_records_step fuel expected (stream_of (p ∷ ps)) p.payload (stream_of ps) p.next
            (read_piece expected p (stream_of ps) same))
        ∙ rw same (ap (λ r. p.payload ∷ r) (read_records-in_order fuel p.next ps (omega arith)))
    | inr other ↦
        ap (λ r. r.0)
          (read_records_stop fuel expected (stream_of (p ∷ ps)) out_of_order
            (read_piece_out_of_order expected p (stream_of ps) other))
        ∙ rw other
  ]

  -- What was written is read back whole and in order, and the reader ends where the stream ends, if
  -- it is given more fuel than there are records.
  pub read_records-write_records :
      (counter : ℕ) (payloads : List (List ℕ)) (written : List ℕ) (next fuel : ℕ)
      → counter < u64_mod
      → write_records cipher counter payloads ≡ ok (written, next)
      → length payloads < fuel
      → read_records cipher fuel counter written ≡ (payloads, some (io unexpected_eof))
  unfolding write_records
  read_records-write_records counter payloads written next zero h done f = absurd (omega arith)
  read_records-write_records counter [] written next (suc fuel) h done f =
      subst (λ s. read_records cipher (suc fuel) counter s ≡ ([], some (io unexpected_eof)))
        (ap (λ p. p.0) (ok-inj done)) (read_records_nothing fuel counter)
  read_records-write_records counter (payload ∷ payloads) written next (suc fuel) h done f =
      let ((first, second), one, h1) = >>=-eq-ok (write_record cipher counter payload) _ done in
      let ((later, end), more, h2) = >>=-eq-ok (write_records cipher second payloads) _ h1 in
      let w = write_record-Written cipher counter payload first second one in
      let rest : read_records cipher fuel second later ≡ (payloads, some (io unexpected_eof)) =
        read_records-write_records second payloads later end fuel
          (omega (arith, w.not_last, w.counted)) more (omega arith) in
      subst
        (λ s.
          read_records cipher (suc fuel) counter s ≡ (payload ∷ payloads, some (io unexpected_eof)))
        (ap (λ p. p.0) (ok-inj h2))
        (read_records_step fuel counter (first ++ later) payload later second
            (read-write_record cipher sealing counter payload first later second h one)
          ∙ ap (λ r. (payload ∷ r.0, r.1)) rest)
