-- ===== src/Base/Sorting.antt =====
-- `sort_by`, for an order given by a test, and what it does to the entries of a table.
use mathlib.Core.Path.{◌≡◌, refl, sym, ap, ◌∙◌}
use mathlib.Core.Logic.{inl, inr}
use mathlib.Core.Bool.{Bool, true, false, ◌||◌}
use mathlib.Core.List.{List, [], ◌∷◌, map}
use mathlib.Core.Option.{some}
use native.Mathlib.Omega.{arith}
use ink_hole.Base.Tests.{if◌then◌else◌, Eq, Bool-cases, beq_self}
use ink_hole.Base.Lists.{All, contains}
use ink_hole.Base.Tables.{
  distinct, lookup, remove, other_than, keys, All-keep, All-lookup, lookup-remove, distinct-keep,
  lookup-missing, remove-missing,
}

module _ {ℓ} {A : Type ℓ} (less : A → A → Bool) where
  -- Behind those that are less.
  unfoldable pub insert_by : A → List A → List A
  insert_by x [] = x ∷ []
  insert_by x (y ∷ ys) = let rest = insert_by x ys in if less y x then y ∷ rest else x ∷ y ∷ ys

  unfoldable pub sort_by : List A → List A
  unfolding insert_by
  sort_by [] = []
  sort_by (x ∷ xs) = insert_by x (sort_by xs)

  module _ (less_trans : (x y z : A) → less x y ≡ true → less y z ≡ true → less x z ≡ true)
      (less_asym : (x y : A) → less x y ≡ true → less y x ≡ false) where
    insert_by-insert_by_less :
        (x y : A) (zs : List A)
        → less x y ≡ true
        → insert_by x (insert_by y zs) ≡ insert_by y (insert_by x zs)
    unfolding insert_by
    insert_by-insert_by_less x y [] h = ground (arith, less_asym x y)
    insert_by-insert_by_less x y (z ∷ zs) h =
        ground (arith, insert_by-insert_by_less x y zs h, less_asym x y, less_trans z x y)

    -- Two elements that the order tells apart go in in either order.
    pub insert_by-insert_by :
        (x y : A) (zs : List A)
        → (less x y || less y x) ≡ true
        → insert_by x (insert_by y zs) ≡ insert_by y (insert_by x zs)
    insert_by-insert_by x y zs h = elim (Bool-cases (less x y)) [
      | inl before ↦ insert_by-insert_by_less x y zs before
      | inr behind ↦ sym (insert_by-insert_by_less y x zs (ground arith))
    ]

    module _ {κ μ ν} {K : Type κ} ⦃e : Eq K⦄ {V : Type μ} (f : V → A) (P : K × V → Type ν)
        (told : (p q : K × V)
          → e.beq p.0 q.0 ≡ false
          → P p
          → P q
          → (less (f p.1) (f q.1) || less (f q.1) (f p.1)) ≡ true) where
      abbrev listed : List (K × V) → List A
      listed t = sort_by (map (λ (entry : K × V). f entry.1) t)

      listed-remove :
          (t : List (K × V)) (k : K) (v : V)
          → distinct (keys t) ≡ true
          → All P t
          → lookup t k ≡ some v
          → listed t ≡ insert_by (f v) (listed (remove t k))
      unfolding sort_by
      listed-remove [] k v d h found = cc
      listed-remove ((i, w) ∷ t) k v d h found = elim (Bool-cases (e.beq i k)) [
        | inl same ↦
            rw (same, remove-missing t k (ground (arith, e.beq_iff i k)))
              (ap (λ u. insert_by (f u) (listed t)) (ground arith))
        | inr apart ↦
            rw (apart, sort_by)
              (ap (insert_by (f w)) (listed-remove t k v (ground arith) h.1 (ground arith))
                ∙ insert_by-insert_by (f w) (f v) (listed (remove t k))
                    (told (i, w) (k, v) apart h.0 (All-lookup P t k v h.1 (ground arith))))
      ]

      -- Two tables of the same content are listed alike, whatever the order of their entries.
      pub listed_unique :
          (t u : List (K × V))
          → distinct (keys t) ≡ true
          → distinct (keys u) ≡ true
          → All P t
          → All P u
          → ((k : K) → lookup t k ≡ lookup u k)
          → listed t ≡ listed u
      unfolding sort_by
      listed_unique [] [] d c h g same = refl
      listed_unique [] ((i, w) ∷ u) d c h g same = absurd (ground (arith, same i, beq_self i))
      listed_unique ((k, v) ∷ t) u d c h g same =
          ap (insert_by (f v)) (
            listed_unique t (remove u k) (ground arith) (distinct-keep (other_than k) u c) h.1
              (All-keep P (other_than k) u g)
              (λ j. ground (
                arith,
                same j,
                lookup-remove u k j,
                lookup-missing t k (ground arith),
                e.beq_iff k j,
              )))
          ∙ sym (listed-remove u k v c g (ground (arith, same k, beq_self k)))

-- Sorting keeps the elements.
module _ {ℓ} {A : Type ℓ} ⦃e : Eq A⦄ (less : A → A → Bool) where
  contains-insert_by :
      (x a : A) (ys : List A) → contains (insert_by less x ys) a ≡ (e.beq x a || contains ys a)
  unfolding insert_by
  contains-insert_by x a [] = refl
  contains-insert_by x a (y ∷ ys) = ground (arith, contains-insert_by x a ys)

  pub contains-sort_by : (xs : List A) (a : A) → contains (sort_by less xs) a ≡ contains xs a
  unfolding sort_by
  contains-sort_by [] a = refl
  contains-sort_by (x ∷ xs) a =
      ground (arith, contains-insert_by x a (sort_by less xs), contains-sort_by xs a)
