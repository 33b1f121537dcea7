-- ===== src/Base/Lists.antt =====
-- Lists measured by native numbers, and the iterator methods that the source uses.
use Prim.Native.Nat.{ℕ, zero, suc, ◌+◌, ◌≤◌}
use mathlib.Core.Path.{◌≡◌, refl, sym}
use mathlib.Core.Logic.{inl, inr}
use mathlib.Core.Bool.{Bool, true, false, ◌&&◌, ◌||◌}
use mathlib.Core.List.{List, [], ◌∷◌, ◌++◌, Memᴰ}
use mathlib.Core.Option.{Option, none, some}
use mathlib.Core.Option
use native.Mathlib.Omega.{arith}
use ink_hole.Base.Tests.{if◌then◌else◌, Eq, Bool-cases}

module _ {ℓ} {A : Type ℓ} where
  abbrev pub length : List A → ℕ
  length [] = 0
  length (x ∷ xs) = suc (length xs)

  pub length-append : (xs ys : List A) → length (xs ++ ys) ≡ length xs + length ys
  length-append [] ys = omega arith
  length-append (x ∷ xs) ys = omega (arith, length-append xs ys)

  abbrev pub all : (A → Bool) → List A → Bool
  all p [] = true
  all p (x ∷ xs) = p x && all p xs

  abbrev pub any : (A → Bool) → List A → Bool
  any p [] = false
  any p (x ∷ xs) = p x || any p xs

  -- Of every element.
  abbrev pub All {κ} : (A → Type κ) → List A → Type κ
  All P [] = Unit
  All P (x ∷ xs) = P x × All P xs

  -- `iter().filter(p)`, by a Boolean test.
  abbrev pub keep : (A → Bool) → List A → List A
  keep p [] = []
  keep p (x ∷ xs) = if p x then x ∷ keep p xs else keep p xs

  pub keep-append : (p : A → Bool) (xs ys : List A) → keep p (xs ++ ys) ≡ keep p xs ++ keep p ys
  keep-append p [] ys = refl
  keep-append p (x ∷ xs) ys = ground (arith, keep-append p xs ys)

  pub length-keep-le : (p : A → Bool) (xs : List A) → length (keep p xs) ≤ length xs
  length-keep-le p [] = omega arith
  length-keep-le p (x ∷ xs) = ground (arith, length-keep-le p xs)

  -- `iter().position(p)`.
  unfoldable pub position : (A → Bool) → List A → Option ℕ
  position p [] = none
  position p (x ∷ xs) = if p x then some 0 else Option.map suc (position p xs)

  -- `remove(index)`; nothing happens out of range.
  unfoldable pub remove_at : ℕ → List A → List A
  remove_at i [] = []
  remove_at zero (x ∷ xs) = xs
  remove_at (suc i) (x ∷ xs) = x ∷ remove_at i xs

module _ {ℓ} {A : Type ℓ} where
  -- Removing what `p` found leaves alone what `q` keeps, if `q` keeps nothing that `p` finds.
  pub keep-remove_at :
      (p q : A → Bool) (i : ℕ) (xs : List A)
      → ((x : A) → p x ≡ true → q x ≡ false)
      → position p xs ≡ some i
      → keep q (remove_at i xs) ≡ keep q xs
  unfolding position remove_at
  keep-remove_at p q i [] apart e = cc
  keep-remove_at p q zero (x ∷ xs) apart e = ground (arith, apart x)
  keep-remove_at p q (suc i) (x ∷ xs) apart e = ground (arith, keep-remove_at p q i xs apart)

  pub length-remove_at :
      (p : A → Bool) (i : ℕ) (xs : List A)
      → position p xs ≡ some i
      → length xs ≡ suc (length (remove_at i xs))
  unfolding position remove_at
  length-remove_at p i [] e = cc
  length-remove_at p zero (x ∷ xs) e = refl
  length-remove_at p (suc i) (x ∷ xs) e = ground (arith, length-remove_at p i xs)

  pub position-none : (p : A → Bool) (xs : List A) → position p xs ≡ none → any p xs ≡ false
  unfolding position
  position-none p [] e = refl
  position-none p (x ∷ xs) e = ground (arith, position-none p xs)

  pub length-keep-remove_at :
      (p q : A → Bool) (i : ℕ) (xs : List A)
      → ((x : A) → p x ≡ true → q x ≡ true)
      → position p xs ≡ some i
      → length (keep q xs) ≡ suc (length (keep q (remove_at i xs)))
  unfolding position remove_at
  length-keep-remove_at p q i [] within e = cc
  length-keep-remove_at p q zero (x ∷ xs) within e = ground (arith, within x)
  length-keep-remove_at p q (suc i) (x ∷ xs) within e =
      ground (arith, length-keep-remove_at p q i xs within)

  pub all-append : (p : A → Bool) (xs ys : List A) → all p (xs ++ ys) ≡ (all p xs && all p ys)
  all-append p [] ys = refl
  all-append p (x ∷ xs) ys = ground (arith, all-append p xs ys)

  pub any-append : (p : A → Bool) (xs ys : List A) → any p (xs ++ ys) ≡ (any p xs || any p ys)
  any-append p [] ys = refl
  any-append p (x ∷ xs) ys = ground (arith, any-append p xs ys)

  pub any-remove_at :
      (p : A → Bool) (i : ℕ) (xs : List A) → any p xs ≡ false → any p (remove_at i xs) ≡ false
  unfolding remove_at
  any-remove_at p i [] e = refl
  any-remove_at p zero (x ∷ xs) e = ground arith
  any-remove_at p (suc i) (x ∷ xs) e = ground (arith, any-remove_at p i xs)

-- `HashSet::contains`, and what else depends on an equality.
module _ {ℓ} {A : Type ℓ} ⦃e : Eq A⦄ where
  abbrev pub contains : List A → A → Bool
  contains xs a = any (λ x. e.beq x a) xs

  pub contains→Memᴰ : (xs : List A) (a : A) → contains xs a ≡ true → Memᴰ a xs
  contains→Memᴰ [] a h = cc
  contains→Memᴰ (x ∷ xs) a h = elim (Bool-cases (e.beq x a)) [
    | inl same ↦ Memᴰ.head (sym ((e.beq_iff x a).0 same))
    | inr apart ↦ Memᴰ.tail (contains→Memᴰ xs a (ground arith))
  ]

  pub Memᴰ→contains : (xs : List A) (a : A) → Memᴰ a xs → contains xs a ≡ true
  Memᴰ→contains [] a m = elim m [ ]
  Memᴰ→contains (x ∷ xs) a (Memᴰ.head h) = ground (arith, e.beq_iff x a)
  Memᴰ→contains (x ∷ xs) a (Memᴰ.tail m) = ground (arith, Memᴰ→contains xs a m)

  pub all-contains :
      (p : A → Bool) (xs : List A) (a : A) → contains xs a ≡ true → p a ≡ false → all p xs ≡ false
  all-contains p [] a h k = cc
  all-contains p (x ∷ xs) a h k = ground (arith, all-contains p xs a, e.beq_iff x a)

module _ {ℓ} {A : Type ℓ} where
  -- What keeps the length keeps all.
  pub keep_all : (p : A → Bool) (xs : List A) → length (keep p xs) ≡ length xs → keep p xs ≡ xs
  keep_all p [] h = refl
  keep_all p (x ∷ xs) h = ground (arith, keep_all p xs, length-keep-le p xs)
