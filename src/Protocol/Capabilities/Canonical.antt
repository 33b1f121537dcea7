-- ===== src/Protocol/Capabilities/Canonical.antt =====
-- Which lists of capabilities are canonical.
use ink_hole.Base.{
  ltb, Bool-cases, ◌==◌, nat_eq_instance, length, all, contains, int_eq_instance,
  option_eq_instance, Text, text_eq, text_eq_iff, text_eq_instance, ℕ, suc, ◌≤◌, ◌≡◌, refl, ap,
  subst, ◌∙◌, ◌↔◌, inl, inr, Bool, true, false, not, ◌&&◌, ◌||◌, List, [], ◌∷◌, map, arith, trim,
  trim-trim,
}
use ink_hole.Errors.{ok, >>=-eq-ok, refuse-eq-ok, ok-inj}
use ink_hole.Protocol.Capabilities.{
  max_capabilities, bad_capability, trim_all, insert, sort, push_distinct, dedup,
  normalize_capabilities,
}
use ink_hole.Protocol.Capabilities.Order.{
  ascending, sort-sorted, sort_id, dedup_id, dedup-ascending,
}

-- A capability that is kept as it is.
abbrev pub clean : Text → Bool
clean c = trim c == c && not (bad_capability c)

all-insert : (p : Text → Bool) (x : Text) (xs : List Text) → all p (insert x xs) ≡ (p x && all p xs)
unfolding insert
all-insert p x [] = refl
all-insert p x (y ∷ ys) = ground (arith, all-insert p x ys)

all-sort : (p : Text → Bool) (xs : List Text) → all p (sort xs) ≡ all p xs
unfolding sort
all-sort p [] = refl
all-sort p (x ∷ xs) = rw (all-insert p x (sort xs), all-sort p xs)

all-push_distinct :
    (p : Text → Bool) (x : Text) (xs : List Text)
    → p x ≡ true
    → all p xs ≡ true
    → all p (push_distinct x xs) ≡ true
unfolding push_distinct
all-push_distinct p x [] h k = ground arith
all-push_distinct p x (y ∷ ys) h k = ground arith

all-dedup : (p : Text → Bool) (xs : List Text) → all p xs ≡ true → all p (dedup xs) ≡ true
unfolding dedup
all-dedup p [] h = refl
all-dedup p (x ∷ xs) h =
    all-push_distinct p x (dedup xs) (ground arith) (all-dedup p xs (ground arith))

length-insert : (x : Text) (xs : List Text) → length (insert x xs) ≡ suc (length xs)
unfolding insert
length-insert x [] = refl
length-insert x (y ∷ ys) = ground (arith, length-insert x ys)

length-sort : (xs : List Text) → length (sort xs) ≡ length xs
unfolding sort
length-sort [] = refl
length-sort (x ∷ xs) = omega (arith, length-insert x (sort xs), length-sort xs)

length-push_distinct : (x : Text) (xs : List Text) → length (push_distinct x xs) ≤ suc (length xs)
unfolding push_distinct
length-push_distinct x [] = omega arith
length-push_distinct x (y ∷ ys) = ground arith

length-dedup : (xs : List Text) → length (dedup xs) ≤ length xs
unfolding dedup
length-dedup [] = omega arith
length-dedup (x ∷ xs) = omega (arith, length-push_distinct x (dedup xs), length-dedup xs)

clean-trim : (c : Text) → bad_capability (trim c) ≡ false → clean (trim c) ≡ true
clean-trim c h = ground (arith, text_eq_iff (trim (trim c)) (trim c), trim-trim c)

trim_all-eq-ok :
    (cs normalized : List Text)
    → trim_all cs ≡ ok normalized
    → (normalized ≡ map trim cs) × (all clean normalized ≡ true)
unfolding trim_all
trim_all-eq-ok [] normalized h = ground arith
trim_all-eq-ok (c ∷ cs) normalized h =
    let (good, h1) = refuse-eq-ok (bad_capability (trim c)) _ _ h in
    let (rest, done, e) = >>=-eq-ok (trim_all cs) _ h1 in
    let (mapped, tidy) = trim_all-eq-ok cs rest done in
    subst (λ n. (n ≡ map trim (c ∷ cs)) × (all clean n ≡ true)) (ok-inj e)
      (ap (λ r. trim c ∷ r) mapped, rw (clean-trim c good) tidy)

trim_all_id : (cs : List Text) → all clean cs ≡ true → trim_all cs ≡ ok cs
unfolding trim_all
trim_all_id [] h = refl
trim_all_id (c ∷ cs) h =
    let trimmed : trim c ≡ c = (text_eq_iff (trim c) c).0 (ground arith) in
    let good : bad_capability c ≡ false = ground arith in
    rw (trimmed, good, trim_all_id cs (ground arith))

length-map-trim : (cs : List Text) → length (map trim cs) ≡ length cs
length-map-trim [] = refl
length-map-trim (c ∷ cs) = omega (arith, length-map-trim cs)

few_left :
    (cs trimmed : List Text)
    → ltb max_capabilities (length cs) ≡ false
    → trimmed ≡ map trim cs
    → length (dedup (sort trimmed)) ≤ max_capabilities
few_left cs trimmed few mapped =
    let shorter = length-dedup (sort trimmed) in
    let same = length-sort trimmed in
    let pieces : length trimmed ≡ length cs = ap length mapped ∙ length-map-trim cs in
    let bound : length cs ≤ max_capabilities = ground arith in omega arith

pub normalize_capabilities_canonical :
    (capabilities normalized : List Text)
    → normalize_capabilities capabilities ≡ ok normalized
    → (length normalized ≤ max_capabilities)
      × (all clean normalized ≡ true)
      × (ascending normalized ≡ true)
unfolding normalize_capabilities
normalize_capabilities_canonical capabilities normalized h =
    let (few, h1) = refuse-eq-ok (ltb max_capabilities (length capabilities)) _ _ h in
    let (trimmed, run, e) = >>=-eq-ok (trim_all capabilities) _ h1 in
    let (mapped, tidy) = trim_all-eq-ok capabilities trimmed run in
    subst (λ n. (length n ≤ max_capabilities) × (all clean n ≡ true) × (ascending n ≡ true))
      (ok-inj e)
      (
        few_left capabilities trimmed few mapped,
        all-dedup clean (sort trimmed) (all-sort clean trimmed ∙ tidy),
        dedup-ascending (sort trimmed) (sort-sorted trimmed),
      )

few_enough : (n : ℕ) → n ≤ max_capabilities → ltb max_capabilities n ≡ false
few_enough n h = ground arith

normalize_canonical :
    (capabilities : List Text)
    → length capabilities ≤ max_capabilities
    → all clean capabilities ≡ true
    → ascending capabilities ≡ true
    → normalize_capabilities capabilities ≡ ok capabilities
unfolding normalize_capabilities
normalize_canonical capabilities few tidy order = rw (
  few_enough (length capabilities) few,
  trim_all_id capabilities tidy,
  sort_id capabilities order,
  dedup_id capabilities order,
)

-- Normalization leaves a list as it is exactly if the list has at most 64 entries, each of them
-- trimmed, not empty and at most 255 bytes long, in strictly ascending order.
pub normalize_capabilities_id_iff :
    (capabilities : List Text)
    → (normalize_capabilities capabilities ≡ ok capabilities) ↔ (
        (length capabilities ≤ max_capabilities)
        × (all clean capabilities ≡ true)
        × (ascending capabilities ≡ true))
normalize_capabilities_id_iff capabilities = (
  normalize_capabilities_canonical capabilities capabilities,
  λ (few, tidy, order). normalize_canonical capabilities few tidy order,
)

-- What is normalized is not changed by normalizing it again.
pub normalize_capabilities_idem :
    (capabilities normalized : List Text)
    → normalize_capabilities capabilities ≡ ok normalized
    → normalize_capabilities normalized ≡ ok normalized
normalize_capabilities_idem capabilities normalized h =
    (normalize_capabilities_id_iff normalized).1
      (normalize_capabilities_canonical capabilities normalized h)

contains-insert :
    (c x : Text) (xs : List Text) → contains (insert x xs) c ≡ (text_eq x c || contains xs c)
unfolding insert
contains-insert c x [] = refl
contains-insert c x (y ∷ ys) = ground (arith, contains-insert c x ys)

contains-sort : (c : Text) (xs : List Text) → contains (sort xs) c ≡ contains xs c
unfolding sort
contains-sort c [] = refl
contains-sort c (x ∷ xs) = rw (contains-insert c x (sort xs), contains-sort c xs)

contains-push_distinct :
    (c x : Text) (xs : List Text) → contains (push_distinct x xs) c ≡ (text_eq x c || contains xs c)
unfolding push_distinct
contains-push_distinct c x [] = refl
contains-push_distinct c x (y ∷ ys) = elim (Bool-cases (text_eq x y)) [
  | inl same ↦ ground (arith, same, (text_eq_iff x y).0 same)
  | inr apart ↦ rw apart
]

contains-dedup : (c : Text) (xs : List Text) → contains (dedup xs) c ≡ contains xs c
unfolding dedup
contains-dedup c [] = refl
contains-dedup c (x ∷ xs) = rw (contains-push_distinct c x (dedup xs), contains-dedup c xs)

-- Normalization neither adds nor loses a capability: what it returns has exactly the trimmed
-- capabilities it was given.
pub contains-normalize_capabilities :
    (capabilities normalized : List Text) (c : Text)
    → normalize_capabilities capabilities ≡ ok normalized
    → contains normalized c ≡ contains (map trim capabilities) c
unfolding normalize_capabilities
contains-normalize_capabilities capabilities normalized c h =
    let (_, h1) = refuse-eq-ok (ltb max_capabilities (length capabilities)) _ _ h in
    let (trimmed, run, e) = >>=-eq-ok (trim_all capabilities) _ h1 in
    subst (λ n. contains n c ≡ contains (map trim capabilities) c) (ok-inj e)
      (contains-dedup c (sort trimmed)
        ∙ contains-sort c trimmed
        ∙ ap (λ t. contains t c) (trim_all-eq-ok capabilities trimmed run).0)
