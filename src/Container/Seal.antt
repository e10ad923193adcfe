-- ===== src/Container/Seal.antt =====
-- oversight_core/container.py: `seal`, `open_sealed` and `seal_multi`. A call that changes the manifest
-- or the counters of opens returns the new ones beside its result.
use oversight.Prelude.{
  ℕ, Bool, true, false, ◌&&◌, Option, none, some, List, [], ◌∷◌, Bytes, codes, ℤ, pos, ltb, ◌==◌,
  length, if◌then◌else◌,
}
use oversight.Json.{is_text, Json, Items, Fields, boolean, int, str, list, dict, nil, cons, get}
use oversight.Hex.{hex}
use oversight.Crypto.{
  Primitives, aead_encrypt, aead_decrypt, unwrap_dek, wrap_dek_for_recipient, content_hash,
}
use oversight.Manifest.{Recipient, Manifest, sign, verify}
use oversight.Policy.{PolicyContext, Disk, check_policy, record_open}
use oversight.Result.{value_error, type_error, attribute_error, Result, ok, raised, ◌>>=◌, guard}
use oversight.Container.{SealedFile, to_bytes, from_bytes}

is_ascii : Bytes → Bool
is_ascii [] = true
is_ascii (c ∷ s) = ltb c 128 && is_ascii s

-- `v.encode("ascii")`; the error of the codec is a `ValueError`.
unfoldable pub ascii_bytes : Json → Result Bytes
unfolding is_ascii
ascii_bytes (str text) = if is_ascii text then ok text else raised value_error
ascii_bytes v = raised attribute_error

-- `v == n`, for the number of bytes of a text. A float is no number here: a manifest with one is
-- refused either way, here or by `sign`.
unfoldable pub is_count : ℕ → Json → Bool
is_count n (int (pos k)) = k == n
is_count n (boolean b) = (if b then 1 else 0) == n
is_count n v = false

-- The recipient, and his key in the manifest.
unfoldable pub is_recipient : Bytes → Option Recipient → Bool
unfolding is_text hex
is_recipient pub_key none = false
is_recipient pub_key (some r) = is_text (hex pub_key) r.x25519_pub

-- A set of issuers, when one is given. The issuer of a manifest that `verify` took is a text.
unfoldable pub is_trusted : Json → Option (List Bytes) → Bool
is_trusted issuer none = true
is_trusted issuer (some []) = false
is_trusted issuer (some (issuer_pub ∷ issuer_pubs)) =
    let others = is_trusted issuer (some issuer_pubs) in
    if is_text issuer_pub issuer then true else others

-- The open is counted, or the exception of the counter is raised.
unfoldable pub counted : Bytes × Manifest → Disk × Result ℤ → Disk × Result (Bytes × Manifest)
counted opened (disk, ok n) = (disk, ok opened)
counted opened (disk, raised e) = (disk, raised e)

module _ (p : Primitives) where
  -- The checks of `seal`, in the order of the source.
  unfoldable pub sealable : Bytes → Bytes → Bytes → Manifest → Result (Unit {0})
  unfolding content_hash is_count is_recipient is_text
  sealable plaintext issuer_ed25519_priv recipient_x25519_pub m = do
    hashed ← guard (is_text (content_hash p plaintext) m.content_hash) value_error
    counted ← guard (is_count (length plaintext) m.size_bytes) value_error
    named ← guard (is_recipient recipient_x25519_pub m.recipient) value_error
    sized ← guard (length recipient_x25519_pub == 32) value_error
    guard (length issuer_ed25519_priv == 32) value_error

  -- What `seal` does with the signed manifest. The ephemeral key, the two nonces and the key of the
  -- file are drawn by the calls.
  unfoldable pub seal_signed :
      Bytes → Bytes → Bytes → Bytes → Bytes → Bytes → Manifest → Result Bytes
  unfolding wrap_dek_for_recipient aead_encrypt ascii_bytes to_bytes
  seal_signed eph wrap_nonce dek nonce plaintext recipient_x25519_pub m = do
    wrapped ← wrap_dek_for_recipient p eph wrap_nonce dek recipient_x25519_pub
    aad ← ascii_bytes m.content_hash
    (aead_nonce, ct) ← aead_encrypt p nonce dek plaintext aad
    to_bytes (record {
      manifest = m;
      wrapped_dek = wrapped;
      aead_nonce = aead_nonce;
      ciphertext = ct;
      suite_id = 1;
    })

  -- The manifest is signed in place.
  unfoldable pub seal :
      Bytes → Bytes → Bytes → Bytes → Bytes → Manifest → Bytes → Bytes → Manifest × Result Bytes
  unfolding sealable seal_signed sign
  seal eph wrap_nonce dek nonce plaintext m issuer_ed25519_priv recipient_x25519_pub =
      elim (sealable plaintext issuer_ed25519_priv recipient_x25519_pub m) [
        | raised e ↦ (m, raised e)
        | ok checked ↦ elim (sign p issuer_ed25519_priv m) [
          | raised e ↦ (m, raised e)
          | ok signed ↦
              (signed, seal_signed eph wrap_nonce dek nonce plaintext recipient_x25519_pub signed)
        ]
      ]

  -- `unwrap_dek` of a slot; one that is no dictionary has no keys to look up.
  unwrap_slot : Json → Bytes → Result Bytes
  unfolding unwrap_dek
  unwrap_slot (dict fs) priv = unwrap_dek p fs priv
  unwrap_slot v priv = raised type_error

  -- The first slot that opens; every exception of a slot is caught.
  try_slots : Items → Bytes → Result Bytes
  unfolding unwrap_slot
  try_slots nil priv = raised value_error
  try_slots (cons slot slots) priv =
      let later = try_slots slots priv in
      elim (unwrap_slot slot priv) [ raised e ↦ later | ok dek ↦ ok dek ]

  -- The iteration over `wrapped_dek["slots"]`: no character and no key of a dictionary opens.
  slots_dek : Json → Bytes → Result Bytes
  unfolding try_slots
  slots_dek (list slots) priv = try_slots slots priv
  slots_dek (str text) priv = raised value_error
  slots_dek (dict fs) priv = raised value_error
  slots_dek v priv = raised type_error

  unfoldable pub recover_dek : Fields → Bytes → Result Bytes
  unfolding unwrap_dek slots_dek get
  recover_dek wrapped priv = elim (get (codes "slots") wrapped) [
    | none ↦ unwrap_dek p wrapped priv
    | some slots ↦ slots_dek slots priv
  ]

  -- The decryption and the check of what it gives.
  unfoldable pub decrypt_content : SealedFile → Bytes → Result Bytes
  unfolding recover_dek ascii_bytes aead_decrypt content_hash is_text
  decrypt_content sf recipient_x25519_priv = do
    dek ← recover_dek sf.wrapped_dek recipient_x25519_priv
    aad ← ascii_bytes sf.manifest.content_hash
    plaintext ← aead_decrypt p dek sf.aead_nonce sf.ciphertext aad
    same ← guard (is_text (content_hash p plaintext) sf.manifest.content_hash) value_error
    ok plaintext

  module _ (loads : Bytes → Option Json) where
    -- `open_sealed` up to its last step, which counts the open.
    unfoldable pub open_checked :
        Bytes → Bytes → Option (List Bytes) → Option PolicyContext → ℤ → Result (Bytes × Manifest)
    unfolding from_bytes verify is_trusted check_policy decrypt_content
    open_checked blob recipient_x25519_priv trusted_issuer_pubs policy_ctx now = do
      sized ← guard (length recipient_x25519_priv == 32) value_error
      sf ← from_bytes loads blob
      signed ← verify p sf.manifest
      valid ← guard signed value_error
      trusted ← guard (is_trusted sf.manifest.issuer_ed25519_pub trusted_issuer_pubs) value_error
      allowed ← check_policy sf.manifest policy_ctx now
      plaintext ← decrypt_content sf recipient_x25519_priv
      ok (plaintext, sf.manifest)

    unfoldable pub open_sealed :
        Bytes
        → Bytes
        → Option (List Bytes)
        → Option PolicyContext
        → ℤ
        → ℤ
        → Disk
        → Disk × Result (Bytes × Manifest)
    unfolding open_checked counted record_open
    open_sealed blob recipient_x25519_priv trusted_issuer_pubs policy_ctx now later disk =
        elim (open_checked blob recipient_x25519_priv trusted_issuer_pubs policy_ctx now) [
          | raised e ↦ (disk, raised e)
          | ok opened ↦ counted opened (record_open opened.1 policy_ctx later disk)
        ]

abbrev pub seal_multi : Bytes → Manifest → Bytes → List Bytes → Result Bytes
seal_multi plaintext m issuer_ed25519_priv recipient_x25519_pubs = raised value_error
