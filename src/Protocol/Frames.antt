-- ===== src/Protocol/Frames.antt =====
-- The frames of protocol.rs: a length in four bytes, big endian, and the JSON of a value.
pub mod RoundTrip
use ink_hole.Base.{
  ltb, ◌==◌, nat_eq_instance, length, int_eq_instance, option_eq_instance, Text, text_eq_instance,
  ℕ, zero, suc, ◌+◌, ◌*◌, ◌/◌, ◌%◌, ◌||◌, List, [], ◌∷◌, ◌++◌,
}
use ink_hole.Protocol.Manifest.{FolderManifest, validate}
use ink_hole.Errors.{
  CoreError, Result, ok, err, protocol, io, json, unexpected_eof, plain, invalid_transfer,
  refuse_if, or_fail, ◌>>=◌, ◌>>◌,
}

abbrev pub max_control_frame : ℕ
max_control_frame = 64 * 1024

abbrev pub max_folder_manifest_frame : ℕ
max_folder_manifest_frame = 32 * 1024 * 1024

-- `write_u32` of a number that is cast to `u32`.
unfoldable pub u32_bytes : ℕ → List ℕ
u32_bytes n = (n / 16777216 % 256) ∷ (n / 65536 % 256) ∷ (n / 256 % 256) ∷ (n % 256) ∷ []

-- What a reader has before it, and what a read takes from it. A read past the end fails.
unfoldable pub read_u32 : List ℕ → Result (ℕ × List ℕ)
read_u32 (a ∷ b ∷ c ∷ d ∷ rest) = ok (a * 16777216 + b * 65536 + c * 256 + d, rest)
read_u32 _ = err (io unexpected_eof)

unfoldable pub read_exact : ℕ → List ℕ → Result (List ℕ × List ℕ)
read_exact zero stream = ok ([], stream)
read_exact (suc n) [] = err (io unexpected_eof)
read_exact (suc n) (b ∷ stream) = do (taken, rest) ← read_exact n stream; ok (b ∷ taken, rest)

-- `to_vec` and `from_slice` are serde_json's for the type of the value; the result of a write is
-- what has been written so far.
module _ {T : Type 0} (to_vec : T → Result (List ℕ)) (from_slice : List ℕ → Result T) where
  unfoldable pub write_frame : List ℕ → T → Result (List ℕ)
  unfolding u32_bytes
  write_frame written value = do
    payload ← to_vec value
    refuse_if (ltb max_control_frame (length payload))
        (protocol (plain "control frame is too large"))
    ok (written ++ u32_bytes (length payload) ++ payload)

  unfoldable pub read_frame : List ℕ → Result (T × List ℕ)
  read_frame stream = do
    (size, after) ← read_u32 stream
    refuse_if (size == 0 || ltb max_control_frame size)
        (protocol (plain "invalid control frame length"))
    (payload, rest) ← read_exact size after
    value ← from_slice payload
    ok (value, rest)

-- The manifest of a folder has frames of its own, and is validated as it is read.
module _ (nfc : Text → Text) (to_lowercase : ℕ → Text) (to_vec : FolderManifest → Result (List ℕ))
    (from_slice : List ℕ → Result FolderManifest) where
  unfoldable pub write_folder_manifest : List ℕ → FolderManifest → Result (List ℕ)
  unfolding u32_bytes
  write_folder_manifest written manifest = do
    payload ← to_vec manifest
    refuse_if (ltb max_folder_manifest_frame (length payload))
        (invalid_transfer (plain "folder manifest is too large"))
    ok (written ++ u32_bytes (length payload) ++ payload)

  unfoldable pub read_folder_manifest : List ℕ → Result (FolderManifest × List ℕ)
  read_folder_manifest stream = do
    (size, after) ← read_u32 stream
    refuse_if (size == 0 || ltb max_folder_manifest_frame size)
        (invalid_transfer (plain "invalid folder manifest length"))
    (payload, rest) ← read_exact size after
    manifest ← from_slice payload
    _ ← validate nfc to_lowercase manifest
    ok (manifest, rest)
