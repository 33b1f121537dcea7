-- ===== src/Protocol/Frames/RoundTrip.antt =====
-- What is written as a frame is read back, and nothing else of the stream is touched.
use mathlib.Core.List.{append_assoc}
use ink_hole.Base.{
  ltb, ◌==◌, nat_eq_instance, length, int_eq_instance, option_eq_instance, Text, text_eq_instance,
  ℕ, ◌≤◌, ◌<◌, ◌≡◌, refl, sym, ap, subst, false, ◌||◌, List, [], ◌∷◌, ◌++◌, arith,
}
use ink_hole.Errors.{CoreError, Result, ok, refuse_if, ◌>>◌, >>=-eq-ok, refuse-eq-ok, ok-inj}
use ink_hole.Protocol.Manifest.{FolderManifest, validate}
use ink_hole.Protocol.Frames.{
  max_control_frame, u32_bytes, read_u32, read_exact, write_frame, read_frame, read_folder_manifest,
}

pub read_u32-u32_bytes :
    (n : ℕ) (rest : List ℕ) → n < 4294967296 → read_u32 (u32_bytes n ++ rest) ≡ ok (n, rest)
unfolding read_u32 u32_bytes
read_u32-u32_bytes n rest h = ap (λ m. ok (m, rest)) (omega arith)

pub read_exact-append : (xs rest : List ℕ) → read_exact (length xs) (xs ++ rest) ≡ ok (xs, rest)
unfolding read_exact
read_exact-append [] rest = refl
read_exact-append (x ∷ xs) rest = rw (read_exact-append xs rest)

fits : (n limit : ℕ) → 0 < n → n ≤ limit → (n == 0 || ltb limit n) ≡ false
fits n limit h k = ground arith

-- What a successful write of a known payload has written.
framed :
    (limit : ℕ) (e : CoreError) (payload frame : List ℕ)
    → (refuse_if (ltb limit (length payload)) e >> ok (u32_bytes (length payload) ++ payload))
      ≡ ok frame
    → (length payload ≤ limit) × (frame ≡ u32_bytes (length payload) ++ payload)
framed limit e payload frame h =
    let (small, done) = refuse-eq-ok (ltb limit (length payload)) e _ h in
    (ground arith, sym (ok-inj done))

module _ {T : Type 0} (to_vec : T → Result (List ℕ)) (from_slice : List ℕ → Result T) where
  read_payload :
      (value : T) (payload rest : List ℕ)
      → from_slice payload ≡ ok value
      → 0 < length payload
      → length payload ≤ max_control_frame
      → read_frame to_vec from_slice ((u32_bytes (length payload) ++ payload) ++ rest)
        ≡ ok (value, rest)
  unfolding read_frame
  read_payload value payload rest s n small = rw (
    append_assoc (u32_bytes (length payload)) payload rest,
    read_u32-u32_bytes (length payload) (payload ++ rest) (omega arith),
    fits (length payload) max_control_frame n small,
    read_exact-append payload rest,
    s,
  )

  -- A value whose JSON is not empty and can be read back is read back from its frame, where a frame
  -- was written, whatever follows in the stream.
  pub read_frame-write_frame :
      (value : T) (payload frame rest : List ℕ)
      → to_vec value ≡ ok payload
      → from_slice payload ≡ ok value
      → 0 < length payload
      → write_frame to_vec from_slice [] value ≡ ok frame
      → read_frame to_vec from_slice (frame ++ rest) ≡ ok (value, rest)
  unfolding write_frame
  read_frame-write_frame value payload frame rest v s n h =
      let (small, made) = framed max_control_frame _ payload frame (rw (v, write_frame) at h) in
      subst (λ f. read_frame to_vec from_slice (f ++ rest) ≡ ok (value, rest)) (sym made)
        (read_payload value payload rest s n small)

same_manifest :
    {T : Type 0} (valid : T → Result ℕ) (m n : T) (before after : List ℕ) (size : ℕ)
    → valid m ≡ ok size
    → ◌≡◌ {A = Result (T × List ℕ)} (ok (m, before)) (ok (n, after))
    → valid n ≡ ok size
same_manifest valid m n before after size v e =
    subst (λ p. valid p ≡ ok size) (ap (λ p. p.0) (ok-inj e)) v

module _ (nfc : Text → Text) (to_lowercase : ℕ → Text) (to_vec : FolderManifest → Result (List ℕ))
    (from_slice : List ℕ → Result FolderManifest) where
  -- What is read as a manifest is valid: a peer cannot have an invalid one accepted.
  pub read_folder_manifest_valid :
      (stream rest : List ℕ) (manifest : FolderManifest)
      → read_folder_manifest nfc to_lowercase to_vec from_slice stream ≡ ok (manifest, rest)
      → (size : ℕ) × (validate nfc to_lowercase manifest ≡ ok size)
  unfolding read_folder_manifest
  read_folder_manifest_valid stream rest manifest h =
      let (_, _, h1) = >>=-eq-ok (read_u32 stream) _ h in
      let (_, h2) = refuse-eq-ok _ _ _ h1 in
      let (_, _, h3) = >>=-eq-ok (read_exact _ _) _ h2 in
      let (m, _, h4) = >>=-eq-ok (from_slice _) _ h3 in
      let (size, valid, h5) = >>=-eq-ok (validate nfc to_lowercase m) _ h4 in
      (size, same_manifest (validate nfc to_lowercase) m manifest _ _ size valid h5)
