-- ===== src/Protocol/Hex.antt =====
-- The texts of hexadecimal digits: digests (hash.rs), nonces and instance ids (protocol.rs).
use ink_hole.Base.{
  leb, ◌==◌, nat_eq_instance, length, all, int_eq_instance, option_eq_instance, Text, bytes, len,
  text_eq_instance, ℕ, ◌*◌, ◌≡◌, refl, ◌↔◌, Bool, true, ◌&&◌, ◌||◌, [], ◌∷◌, arith,
}

abbrev pub is_hex : ℕ → Bool
is_hex byte = (leb b'0' byte && leb byte b'9') || (leb b'a' byte && leb byte b'f')

unfoldable pub valid_blake3 : Text → Bool
valid_blake3 value = len value == 64 && all is_hex (bytes value)

unfoldable pub valid_instance_id : Text → Bool
valid_instance_id value = len value == 32 && all is_hex (bytes value)

unfoldable pub valid_hex_nonce : Text → ℕ → Bool
valid_hex_nonce value size = len value == size * 2 && all is_hex (bytes value)

-- Bytes that are hexadecimal digits are one scalar value each.
pub bytes_of_hex : (s : Text) → all is_hex (bytes s) ≡ true → bytes s ≡ s
unfolding bytes
bytes_of_hex [] h = refl
bytes_of_hex (c ∷ s) h = ground (arith, bytes_of_hex s)

pub hex_bytes : (s : Text) → all is_hex s ≡ true → bytes s ≡ s
unfolding bytes
hex_bytes [] h = refl
hex_bytes (c ∷ s) h = ground (arith, hex_bytes s)

-- Of the test on a given number of digits, in terms of scalar values.
hex_digits_iff :
    (n : ℕ) (value : Text)
    → ((len value == n && all is_hex (bytes value)) ≡ true)
      ↔ ((length value ≡ n) × (all is_hex value ≡ true))
unfolding len
hex_digits_iff n value = (
  λ h. let e = bytes_of_hex value (ground arith) in (ground (arith, e), ground (arith, e)),
  λ h. let e = hex_bytes value h.1 in ground (arith, e),
)

-- A digest is 64 digits, lower case.
pub valid_blake3_iff :
    (value : Text) → (valid_blake3 value ≡ true) ↔ ((length value ≡ 64) × (all is_hex value ≡ true))
unfolding valid_blake3
valid_blake3_iff value = hex_digits_iff 64 value
