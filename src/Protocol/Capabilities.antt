-- ===== src/Protocol/Capabilities.antt =====
-- `normalize_capabilities` of protocol.rs: the list of what a peer can do, in a canonical form.
pub mod Order
pub mod Canonical
use ink_hole.Base.{
  ltb, if◌then◌else◌, ◌==◌, nat_eq_instance, length, int_eq_instance, option_eq_instance, Text, len,
  text_lt, text_eq_instance, ℕ, Bool, ◌||◌, List, [], ◌∷◌, trim,
}
use ink_hole.Errors.{CoreError, Result, ok, err, invalid_identity, plain, refuse_if, ◌>>=◌, ◌>>◌}

abbrev pub max_capabilities : ℕ
max_capabilities = 64

abbrev pub max_identity_field : ℕ
max_identity_field = 255

abbrev bad_capability : Text → Bool
bad_capability capability = capability == [] || ltb max_identity_field (len capability)

-- The loop, which trims and tests.
unfoldable pub trim_all : List Text → Result (List Text)
trim_all [] = ok []
trim_all (c ∷ cs) = do
  refuse_if (bad_capability (trim c)) (invalid_identity (plain "invalid peer capability"))
  normalized ← trim_all cs
  ok (trim c ∷ normalized)

-- `Vec::sort`.
unfoldable pub insert : Text → List Text → List Text
insert x [] = x ∷ []
insert x (y ∷ ys) = let rest = insert x ys in if text_lt y x then y ∷ rest else x ∷ y ∷ ys

unfoldable pub sort : List Text → List Text
sort [] = []
sort (x ∷ xs) = insert x (sort xs)

-- `Vec::dedup`.
unfoldable pub push_distinct : Text → List Text → List Text
push_distinct x [] = x ∷ []
push_distinct x (y ∷ ys) = if x == y then y ∷ ys else x ∷ y ∷ ys

unfoldable pub dedup : List Text → List Text
dedup [] = []
dedup (x ∷ xs) = push_distinct x (dedup xs)

unfoldable pub normalize_capabilities : List Text → Result (List Text)
normalize_capabilities capabilities = do
  refuse_if (ltb max_capabilities (length capabilities))
      (invalid_identity (plain "too many peer capabilities"))
  normalized ← trim_all capabilities
  ok (dedup (sort normalized))
