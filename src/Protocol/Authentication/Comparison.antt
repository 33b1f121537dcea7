-- ===== src/Protocol/Authentication/Comparison.antt =====
-- `constant_time_eq` decides equality.
use Prim.Native.Nat.{bit_or, bit_xor}
use mathlib.Core.Path.{ap₂}
use ink_hole.Base.{
  ltb, if◌then◌else◌, ◌==◌, nat_eq_instance, length, all, int_eq_instance, option_eq_instance,
  text_eq_instance, ℕ, zero, suc, ◌<◌, ◌≡◌, refl, ◌↔◌, Bool, true, not, ◌&&◌, List, [], ◌∷◌, arith,
}
use ink_hole.Protocol.Authentication.{differences, constant_time_eq}

-- That a test holds of every number below a bound, by trying each.
holds_below : (ℕ → Bool) → ℕ → Bool
holds_below p zero = true
holds_below p (suc bound) = holds_below p bound && p bound

holds_below_at : (p : ℕ → Bool) (bound x : ℕ) → x < bound → holds_below p bound ≡ true → p x ≡ true
unfolding holds_below
holds_below_at p zero x less h = absurd (omega arith)
holds_below_at p (suc bound) x less h = ground (arith, holds_below_at p bound x)

same : Bool → Bool → Bool
same a b = if a then b else not b

pair_table : (ℕ → ℕ → Bool) → Bool
pair_table p = holds_below (λ a. holds_below (p a) 256) 256

pair_sound : (p : ℕ → ℕ → Bool) (a b : ℕ) → pair_table p ≡ true → a < 256 → b < 256 → p a b ≡ true
unfolding pair_table
pair_sound p a b h k l =
    holds_below_at (p a) 256 b l (holds_below_at (λ c. holds_below (p c) 256) 256 a k h)

xor_table : pair_table (λ a b. same (bit_xor a b == 0) (a == b) && ltb (bit_xor a b) 256) ≡ true
unfolding pair_table holds_below same
xor_table = refl

or_table :
    pair_table (λ a b. same (bit_or a b == 0) (a == 0 && b == 0) && ltb (bit_or a b) 256) ≡ true
unfolding pair_table holds_below same
or_table = refl

xor_facts : (a b : ℕ) → a < 256 → b < 256 → (bit_xor a b < 256) × ((bit_xor a b ≡ 0) ↔ (a ≡ b))
unfolding same
xor_facts a b h k = ground (
  arith,
  pair_sound (λ x y. same (bit_xor x y == 0) (x == y) && ltb (bit_xor x y) 256) a b xor_table h k,
)

or_facts :
    (a b : ℕ) → a < 256 → b < 256 → (bit_or a b < 256) × ((bit_or a b ≡ 0) ↔ ((a ≡ 0) × (b ≡ 0)))
unfolding same
or_facts a b h k = ground (
  arith,
  pair_sound (λ x y. same (bit_or x y == 0) (x == 0 && y == 0) && ltb (bit_or x y) 256) a b or_table
      h k,
)

abbrev pub are_bytes : List ℕ → Bool
are_bytes = all (λ b. ltb b 256)

differences_iff :
    (d : ℕ) (left right : List ℕ)
    → d < 256
    → are_bytes left ≡ true
    → are_bytes right ≡ true
    → length left ≡ length right
    → (differences d left right ≡ 0) ↔ ((d ≡ 0) × (left ≡ right))
unfolding differences
differences_iff d [] [] b h k n = (λ e. (e, refl), λ e. e.0)
differences_iff d [] (r ∷ right) b h k n = absurd (omega arith)
differences_iff d (l ∷ left) [] b h k n = absurd (omega arith)
differences_iff d (l ∷ left) (r ∷ right) b h k n =
    let (xb, xz) = xor_facts l r (ground arith) (ground arith) in
    let (ob, oz) = or_facts d (bit_xor l r) b xb in
    let (to, from) =
      differences_iff (bit_or d (bit_xor l r)) left right ob (ground arith) (ground arith)
        (omega arith) in
    (
      λ e. let (z, same) = to e in let (dz, x) = oz.0 z in (dz, ap₂ (◌∷◌) (xz.0 x) same),
      λ e. from (oz.1 (e.0, xz.1 (ground arith)), ground arith),
    )

-- Of two arrays of bytes of one length the comparison is true exactly if they are the same.
pub constant_time_eq_iff :
    (left right : List ℕ)
    → are_bytes left ≡ true
    → are_bytes right ≡ true
    → length left ≡ length right
    → (constant_time_eq left right ≡ true) ↔ (left ≡ right)
unfolding constant_time_eq
constant_time_eq_iff left right h k n =
    let (to, from) = differences_iff 0 left right (omega arith) h k n in
    (λ e. (to (ground arith)).1, λ e. ground (arith, from (refl, e)))
