-- ===== src/Base/Tables.antt =====
-- `HashMap` as the list of its entries, each key at most once.
use Prim.Native.Nat.{suc}
use mathlib.Core.Path.{◌≡◌, refl, subst}
use mathlib.Core.Logic.{inl, inr}
use mathlib.Core.Bool.{Bool, true, false, not, ◌&&◌}
use mathlib.Core.List.{List, [], ◌∷◌, map}
use mathlib.Core.Option.{Option, none, some}
use native.Mathlib.Omega.{arith}
use ink_hole.Base.Tests.{if◌then◌else◌, Eq, Bool-cases, if_elim, beq_self}
use ink_hole.Base.Lists.{length, All, keep, contains}

module _ {ℓ} {A : Type ℓ} ⦃e : Eq A⦄ where
  -- That no element occurs twice.
  abbrev pub distinct : List A → Bool
  distinct [] = true
  distinct (x ∷ xs) = not (contains xs x) && distinct xs

module _ {ℓ} {A : Type ℓ} where
  pub All-keep {κ} : (P : A → Type κ) (p : A → Bool) (xs : List A) → All P xs → All P (keep p xs)
  All-keep P p [] h = tt
  All-keep P p (x ∷ xs) h =
      if_elim (All P) (p x) (λ _. (h.0, All-keep P p xs h.1)) (λ _. All-keep P p xs h.1)

  pub All-map {κ} : {P Q : A → Type κ} (xs : List A) → ((x : A) → P x → Q x) → All P xs → All Q xs
  All-map [] f h = tt
  All-map (x ∷ xs) f h = (f x h.0, All-map xs f h.1)

module _ {κ ℓ} {K : Type κ} ⦃e : Eq K⦄ {V : Type ℓ} where
  abbrev pub lookup : List (K × V) → K → Option V
  lookup [] k = none
  lookup ((j, v) ∷ t) k = if e.beq j k then some v else lookup t k

  -- `insert`, which also stands for a change by `get_mut`.
  abbrev pub insert : List (K × V) → K → V → List (K × V)
  insert [] k v = (k, v) ∷ []
  insert ((j, w) ∷ t) k v =
      let rest = insert t k v in if e.beq j k then (k, v) ∷ t else (j, w) ∷ rest

  abbrev pub other_than : K → K × V → Bool
  other_than k entry = not (e.beq entry.0 k)

  abbrev pub remove : List (K × V) → K → List (K × V)
  remove t k = keep (other_than k) t

  abbrev pub keys : List (K × V) → List K
  keys t = map (λ (entry : K × V). entry.0) t

  abbrev pub values : List (K × V) → List V
  values t = map (λ (entry : K × V). entry.1) t

  pub lookup-insert :
      (t : List (K × V)) (k j : K) (v : V)
      → lookup (insert t k v) j ≡ (if e.beq k j then some v else lookup t j)
  lookup-insert [] k j v = refl
  lookup-insert ((i, w) ∷ t) k j v =
      ground (arith, lookup-insert t k j v, e.beq_iff i k, e.beq_iff i j, e.beq_iff k j)

  pub lookup-remove :
      (t : List (K × V)) (k j : K)
      → lookup (remove t k) j ≡ (if e.beq k j then none else lookup t j)
  lookup-remove [] k j = ground arith
  lookup-remove ((i, w) ∷ t) k j =
      ground (arith, lookup-remove t k j, e.beq_iff i k, e.beq_iff i j, e.beq_iff k j)

  pub length-insert_old :
      (t : List (K × V)) (k : K) (v w : V) → lookup t k ≡ some w → length (insert t k v) ≡ length t
  length-insert_old [] k v w h = cc
  length-insert_old ((i, u) ∷ t) k v w h = ground (arith, length-insert_old t k v w)

  pub length-insert_new :
      (t : List (K × V)) (k : K) (v : V)
      → lookup t k ≡ none
      → length (insert t k v) ≡ suc (length t)
  length-insert_new [] k v h = refl
  length-insert_new ((i, u) ∷ t) k v h = ground (arith, length-insert_new t k v)

  pub contains-keys-insert :
      (t : List (K × V)) (k j : K) (v : V)
      → contains (keys (insert t k v)) j ≡ (if e.beq k j then true else contains (keys t) j)
  contains-keys-insert [] k j v = ground arith
  contains-keys-insert ((i, w) ∷ t) k j v =
      ground (arith, contains-keys-insert t k j v, e.beq_iff i k, e.beq_iff i j, e.beq_iff k j)

  pub contains-keys-keep :
      (p : K × V → Bool) (t : List (K × V)) (j : K)
      → contains (keys t) j ≡ false
      → contains (keys (keep p t)) j ≡ false
  contains-keys-keep p [] j h = refl
  contains-keys-keep p (x ∷ t) j h = ground (arith, contains-keys-keep p t j)

  pub distinct-insert :
      (t : List (K × V)) (k : K) (v : V)
      → distinct (keys t) ≡ true
      → distinct (keys (insert t k v)) ≡ true
  distinct-insert [] k v h = refl
  distinct-insert ((i, w) ∷ t) k v h =
      ground
        (arith, distinct-insert t k v, contains-keys-insert t k i v, e.beq_iff i k, e.beq_iff k i)

  pub distinct-keep :
      (p : K × V → Bool) (t : List (K × V))
      → distinct (keys t) ≡ true
      → distinct (keys (keep p t)) ≡ true
  distinct-keep p [] h = refl
  distinct-keep p (x ∷ t) h = ground (arith, distinct-keep p t, contains-keys-keep p t x.0)

  pub All-insert {μ} :
      (P : K × V → Type μ) (t : List (K × V)) (k : K) (v : V)
      → All P t
      → P (k, v)
      → All P (insert t k v)
  All-insert P [] k v h new = (new, tt)
  All-insert P ((i, w) ∷ t) k v h new =
      if_elim (All P) (e.beq i k) (λ _. (new, h.1)) (λ _. (h.0, All-insert P t k v h.1 new))

  -- What holds of all entries holds of the one that is found.
  pub All-lookup {μ} :
      (P : K × V → Type μ) (t : List (K × V)) (k : K) (v : V)
      → All P t
      → lookup t k ≡ some v
      → P (k, v)
  All-lookup P [] k v h found = cc
  All-lookup P ((i, w) ∷ t) k v h found = elim (Bool-cases (e.beq i k)) [
    | inl same ↦
        subst (λ i. P (i, v)) ((e.beq_iff i k).0 same) (subst (λ u. P (i, u)) (ground arith) h.0)
    | inr apart ↦ All-lookup P t k v h.1 (ground arith)
  ]

  pub lookup-missing : (t : List (K × V)) (k : K) → contains (keys t) k ≡ false → lookup t k ≡ none
  lookup-missing [] k h = refl
  lookup-missing (x ∷ t) k h = ground (arith, lookup-missing t k)

  pub contains-missing :
      (t : List (K × V)) (k : K) → lookup t k ≡ none → contains (keys t) k ≡ false
  contains-missing [] k h = refl
  contains-missing (x ∷ t) k h = ground (arith, contains-missing t k)

  pub remove-missing : (t : List (K × V)) (k : K) → contains (keys t) k ≡ false → remove t k ≡ t
  remove-missing [] k h = refl
  remove-missing (x ∷ t) k h = ground (arith, remove-missing t k)

  -- What a change leaves alone, in the order of the entries.
  pub map-insert_same {μ} :
      {B : Type μ} (f : V → B) (t : List (K × V)) (k : K) (v w : V)
      → lookup t k ≡ some v
      → f w ≡ f v
      → map (λ (entry : K × V). f entry.1) (insert t k w) ≡ map (λ (entry : K × V). f entry.1) t
  map-insert_same f [] k v w found same = cc
  map-insert_same f ((i, u) ∷ t) k v w found same = elim (Bool-cases (e.beq i k)) [
    | inl here ↦ ground arith
    | inr apart ↦ ground (arith, map-insert_same f t k v w)
  ]

  -- What is found where a test has dropped entries.
  abbrev pub passed : (K × V → Bool) → K → Option V → Option V
  passed p k none = none
  passed p k (some v) = if p (k, v) then some v else none

  pub lookup-keep :
      (p : K × V → Bool) (t : List (K × V)) (k : K)
      → distinct (keys t) ≡ true
      → lookup (keep p t) k ≡ passed p k (lookup t k)
  lookup-keep p [] k d = refl
  lookup-keep p ((i, v) ∷ t) k d = elim (Bool-cases (e.beq i k)) [
    | inl same ↦
        subst (λ j. lookup (keep p ((i, v) ∷ t)) j ≡ passed p j (lookup ((i, v) ∷ t) j))
          ((e.beq_iff i k).0 same)
          (ground (
            arith,
            beq_self i,
            lookup-missing (keep p t) i (contains-keys-keep p t i (ground arith)),
          ))
    | inr apart ↦ ground (arith, lookup-keep p t k)
  ]

  -- What an entry in front leaves of the others.
  found-behind :
      (t u : List (K × V)) (i : K) (w : V)
      → contains (keys t) i ≡ false
      → All (λ (x : K × V). lookup t x.0 ≡ some x.1) u
      → All (λ (x : K × V). lookup ((i, w) ∷ t) x.0 ≡ some x.1) u
  found-behind t [] i w h all = tt
  found-behind t (x ∷ u) i w h all =
      (ground (arith, lookup-missing t i h, e.beq_iff i x.0, all.0), found-behind t u i w h all.1)

  -- Where no key occurs twice, each entry is what is found under its key.
  pub found_all :
      (t : List (K × V)) → distinct (keys t) ≡ true → All (λ (x : K × V). lookup t x.0 ≡ some x.1) t
  found_all [] d = tt
  found_all ((i, w) ∷ t) d =
      (ground (arith, beq_self i), found-behind t t i w (ground arith) (found_all t (ground arith)))
