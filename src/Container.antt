-- ===== src/Container.antt =====
-- oversight_core/container.py: the layout of a sealed file, `seal` and `open_sealed`. The parser of
-- JSON, the primitives and the random values are parameters, as in the manifest's model.
pub mod Layout
pub mod Framing
pub mod Parts
pub mod Seal
pub mod Opening
pub mod Sealed
pub mod Sealing
pub mod Examples
use oversight.Prelude.{
  ℕ, Bool, true, false, ◌&&◌, ◌||◌, not, Option, none, some, List, [], ◌∷◌, ◌++◌, Bytes, beq, codes,
  ℤ, pos, leb, ltb, ◌==◌, length, take, drop, if◌then◌else◌,
}
use oversight.Json.{
  is_text, Json, Items, Fields, null, boolean, int, float, str, list, dict, nil, cons, end, field,
  get,
}
use oversight.Jcs.{jcs_dumps}
use oversight.Hex.{hex}
use oversight.Wire.{pack_u32, unpack_u32}
use oversight.Crypto.{
  Primitives, aead_encrypt, aead_decrypt, unwrap_dek, wrap_dek_for_recipient, content_hash,
}
use oversight.Manifest.{Recipient, Manifest, to_json, sign, verify}
use oversight.Manifest.Parser.{from_json}
use oversight.Policy.{PolicyContext, Disk, check_policy, record_open}
use oversight.Result.{
  Exception, struct_error, value_error, type_error, attribute_error, Result, ok, raised, ◌>>=◌,
  guard, or_raise,
}

abbrev pub magic : Bytes
magic = codes "OSGT" ++ 1 ∷ 0 ∷ []

abbrev pub max_manifest_bytes : ℕ
max_manifest_bytes = 4194304

abbrev pub max_wrapped_dek_bytes : ℕ
max_wrapped_dek_bytes = 1048576

abbrev pub max_ciphertext_bytes : ℕ
max_ciphertext_bytes = 4294967296

-- `SUITE_ID_TO_NAME.get(suite_id)`
unfoldable pub suite_name : ℕ → Option Bytes
suite_name suite_id =
    if suite_id == 1
    then some (codes "OSGT-CLASSIC-v1")
    else if suite_id == 2
    then some (codes "OSGT-HYBRID-v1")
    else if suite_id == 3
    then some (codes "OSGT-HW-P256-v1")
    else none

pub record SealedFile : Type 0 where
  pub manifest : Manifest
  pub wrapped_dek : Fields
  pub aead_nonce : Bytes
  pub ciphertext : Bytes
  pub suite_id : ℕ

-- `_read_exact`: the bytes read, and those that follow.
pub read_exact : ℕ → Bytes → Result (Bytes × Bytes)
read_exact n buf = do full ← guard (leb n (length buf)) value_error; ok (take n buf, drop n buf)

-- `struct.unpack(">I", _read_exact(buf, 4, …))`, and the cap on it
read_length : ℕ → Bytes → Result (ℕ × Bytes)
unfolding read_exact unpack_u32
read_length cap buf = do
  (word, rest) ← read_exact 4 buf
  n ← or_raise (unpack_u32 word) value_error
  within ← guard (leb n cap) value_error
  ok (n, rest)

-- A field behind its length.
pub read_field : ℕ → Bytes → Result (Bytes × Bytes)
unfolding read_length read_exact
read_field cap buf = do (n, rest) ← read_length cap buf; read_exact n rest

-- `struct.pack(">I", len(part))` and the part
pub write_field : Bytes → Result Bytes
unfolding pack_u32
write_field part = do word ← or_raise (pack_u32 (length part)) struct_error; ok (word ++ part)

pub as_dict : Json → Result Fields
as_dict (dict fs) = ok fs
as_dict v = raised value_error

unfoldable pub to_bytes : SealedFile → Result Bytes
unfolding write_field to_json jcs_dumps
to_bytes sf = do
  suited ← guard (ltb sf.suite_id 256) value_error
  manifest_json ← to_json sf.manifest
  manifest_part ← write_field manifest_json
  wrapped_json ← or_raise (jcs_dumps (dict sf.wrapped_dek)) type_error
  wrapped_part ← write_field wrapped_json
  ciphertext_part ← write_field sf.ciphertext
  ok (
      magic
      ++ 1 ∷ sf.suite_id ∷ (manifest_part ++ (wrapped_part ++ (sf.aead_nonce ++ ciphertext_part))))

-- The two bytes behind the magic: the version must be 1.
read_version : Bytes → Bytes → Result (ℕ × Bytes)
read_version (version ∷ suite_id ∷ []) body = do
  supported ← guard (version == 1) value_error
  ok (suite_id, body)
read_version hdr body = raised value_error

-- The magic and the version, and the suite.
pub read_header : Bytes → Result (ℕ × Bytes)
unfolding read_exact read_version
read_header blob = do
  (start, rest) ← read_exact 6 blob
  known ← guard (beq start magic) value_error
  (hdr, body) ← read_exact 2 rest
  read_version hdr body

module _ (loads : Bytes → Option Json) where
  -- The manifest, of the suite that the header names.
  pub read_manifest : ℕ → Bytes → Result Manifest
  unfolding from_json suite_name is_text
  read_manifest suite_id manifest_json = do
    manifest ← from_json loads manifest_json
    expected_suite ← or_raise (suite_name suite_id) value_error
    agreed ← guard (is_text expected_suite manifest.suite) value_error
    ok manifest

  unfoldable pub from_bytes : Bytes → Result SealedFile
  unfolding read_header read_field read_exact read_manifest as_dict
  from_bytes blob = do
    (suite_id, body) ← read_header blob
    (manifest_json, after_manifest) ← read_field max_manifest_bytes body
    manifest ← read_manifest suite_id manifest_json
    (wrapped_json, after_wrapped) ← read_field max_wrapped_dek_bytes after_manifest
    value ← or_raise (loads wrapped_json) value_error
    wrapped_dek ← as_dict value
    (aead_nonce, after_nonce) ← read_exact 24 after_wrapped
    (ciphertext, trailing) ← read_field max_ciphertext_bytes after_nonce
    ended ← guard (beq trailing []) value_error
    ok (record {
      manifest = manifest;
      wrapped_dek = wrapped_dek;
      aead_nonce = aead_nonce;
      ciphertext = ciphertext;
      suite_id = suite_id;
    })
