-- ===== src/Protocol/Capabilities/Order.antt =====
-- How sorting and dropping repetitions order a list of capabilities.
use ink_hole.Base.{
  Bool-cases, nat_eq_instance, int_eq_instance, option_eq_instance, Text, text_eq-ne, text_lt,
  text_lt_irrefl, text_lt_trans, text_eq, text_eq_iff, text_eq_instance, ◌≡◌, refl, sym, ap, subst,
  inl, inr, Bool, true, false, not, ◌&&◌, List, [], ◌∷◌, arith, if_elim, text_lt_total,
}
use ink_hole.Protocol.Capabilities.{insert, sort, push_distinct, dedup}

-- Sorted, with and without repetitions.
pub sorted : List Text → Bool
sorted [] = true
sorted (x ∷ []) = true
sorted (x ∷ y ∷ ys) = not (text_lt y x) && sorted (y ∷ ys)

unfoldable pub ascending : List Text → Bool
ascending [] = true
ascending (x ∷ []) = true
ascending (x ∷ y ∷ ys) = text_lt x y && ascending (y ∷ ys)

lt_asym : (x y : Text) → text_lt x y ≡ true → text_lt y x ≡ false
lt_asym x y h = elim (Bool-cases (text_lt y x)) [
  | inl k ↦ absurd (ground (arith, text_lt_trans x y x h k, text_lt_irrefl x))
  | inr k ↦ k
]

insert-sorted : (x : Text) (xs : List Text) → sorted xs ≡ true → sorted (insert x xs) ≡ true
unfolding insert sorted
insert-sorted x [] h = refl
insert-sorted x (y ∷ []) h = ground (arith, lt_asym y x)
insert-sorted x (y ∷ z ∷ zs) h = ground (arith, insert-sorted x (z ∷ zs), lt_asym y x)

pub sort-sorted : (xs : List Text) → sorted (sort xs) ≡ true
unfolding sort sorted
sort-sorted [] = refl
sort-sorted (x ∷ xs) = insert-sorted x (sort xs) (sort-sorted xs)

insert_first : (x : Text) (xs : List Text) → ascending (x ∷ xs) ≡ true → insert x xs ≡ x ∷ xs
unfolding insert ascending
insert_first x [] h = refl
insert_first x (y ∷ ys) h = rw (lt_asym x y (ground arith))

tail-ascending : (x : Text) (xs : List Text) → ascending (x ∷ xs) ≡ true → ascending xs ≡ true
unfolding ascending
tail-ascending x [] h = refl
tail-ascending x (y ∷ ys) h = ground arith

pub sort_id : (xs : List Text) → ascending xs ≡ true → sort xs ≡ xs
unfolding sort
sort_id [] h = refl
sort_id (x ∷ xs) h = rw (sort_id xs (tail-ascending x xs h)) (insert_first x xs h)

lt-ne : (x y : Text) → text_lt x y ≡ true → text_eq x y ≡ false
lt-ne x y h =
    text_eq-ne x y
      (λ e. ground (arith, text_lt_irrefl x, subst (λ z. text_lt x z ≡ true) (sym e) h))

push_distinct_first :
    (x : Text) (xs : List Text) → ascending (x ∷ xs) ≡ true → push_distinct x xs ≡ x ∷ xs
unfolding push_distinct ascending
push_distinct_first x [] h = refl
push_distinct_first x (y ∷ ys) h = rw (lt-ne x y (ground arith))

pub dedup_id : (xs : List Text) → ascending xs ≡ true → dedup xs ≡ xs
unfolding dedup
dedup_id [] h = refl
dedup_id (x ∷ xs) h = rw (dedup_id xs (tail-ascending x xs h)) (push_distinct_first x xs h)

-- What a repetition is dropped before begins with the same text.
push_distinct-ascending :
    (x y : Text) (ys : List Text)
    → text_lt y x ≡ false
    → ascending (y ∷ ys) ≡ true
    → ascending (push_distinct x (y ∷ ys)) ≡ true
unfolding push_distinct ascending
push_distinct-ascending x y ys h k = elim (Bool-cases (text_eq x y)) [
  | inl same ↦ rw same k
  | inr apart ↦ elim (Bool-cases (text_lt x y)) [
    | inl less ↦ rw apart (ground arith)
    | inr more ↦ cc (apart, (text_eq_iff x y).1 (text_lt_total x y more h))
  ]
]

push_distinct-head : (x : Text) (xs : List Text) → (ys : List Text) × (push_distinct x xs ≡ x ∷ ys)
unfolding push_distinct
push_distinct-head x [] = ([], refl)
push_distinct-head x (y ∷ ys) =
    if_elim (λ zs. (ws : List Text) × (zs ≡ x ∷ ws)) (text_eq x y)
      (λ same. (ys, ap (λ z. z ∷ ys) (sym ((text_eq_iff x y).0 same)))) (λ _. (y ∷ ys, refl))

pub dedup-ascending : (xs : List Text) → sorted xs ≡ true → ascending (dedup xs) ≡ true
unfolding dedup sorted ascending push_distinct
dedup-ascending [] h = refl
dedup-ascending (x ∷ []) h = refl
dedup-ascending (x ∷ y ∷ ys) h =
    let (zs, e) = push_distinct-head y (dedup ys) in
    let rest : ascending (y ∷ zs) ≡ true =
      subst (λ ws. ascending ws ≡ true) e (dedup-ascending (y ∷ ys) (ground arith)) in
    subst (λ ws. ascending (push_distinct x ws) ≡ true) (sym e)
      (push_distinct-ascending x y zs (ground arith) rest)
