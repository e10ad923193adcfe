-- ===== src/Crypto.antt =====
-- oversight_core/crypto.py: the key wrapping of the three suites and the wrappers of signatures and
-- the AEAD. The primitives of the packages cryptography, PyNaCl and oqs are parameters; so are the
-- random values that a call draws. `none` stands for their exceptions.
pub mod Wrapping
pub mod Examples
use oversight.Prelude.{
  ℕ, Bool, true, false, ◌≡◌, Option, none, some, List, [], ◌∷◌, ◌++◌, Bytes, codes, length, ◌==◌,
  not,
}
use oversight.Json.{Json, Fields, str, end, field, get, null, boolean, int, float, list, dict}
use oversight.Hex.{hex, fromhex}
use oversight.Result.{
  Exception, value_error, type_error, key_error, assertion_error, runtime_error, crypto_error,
  Result, ok, raised, ◌>>=◌, guard, or_raise,
}

pub record Primitives : Type 0 where
  -- X25519: a private key's public key, and the secret of a private and a public key.
  pub x25519_public : Bytes → Option Bytes
  pub x25519_exchange : Bytes → Bytes → Option Bytes
  -- P-256, with public keys in SEC1 form.
  pub p256_public : Bytes → Option Bytes
  pub p256_exchange : Bytes → Bytes → Option Bytes
  -- ML-KEM-768: a ciphertext and a secret for a public key, from random bytes.
  pub kem_encap : Bytes → Bytes → Option (Bytes × Bytes)
  pub kem_decap : Bytes → Bytes → Option Bytes
  pub pq_available : Bool
  -- HKDF-SHA256 to 32 bytes without salt: info, then the key material.
  pub hkdf : Bytes → Bytes → Bytes
  -- XChaCha20-Poly1305: key, nonce, associated data, text.
  pub aead_seal : Bytes → Bytes → Bytes → Bytes → Option Bytes
  pub aead_open : Bytes → Bytes → Bytes → Bytes → Option Bytes
  -- Ed25519: private key and message; public key, signature and message.
  pub ed25519_sign : Bytes → Bytes → Option Bytes
  pub ed25519_verify : Bytes → Bytes → Bytes → Bool
  pub sha256 : Bytes → Bytes

-- `wrapped[name]` as bytes: a missing key, a value that is no text, or no hexadecimal digits.
unfoldable pub hex_field : Bytes → Fields → Result Bytes
unfolding get fromhex
hex_field name wrapped = elim (get name wrapped) [
  | none ↦ raised key_error
  | some (str text) ↦ or_raise (fromhex text) value_error
  | some _ ↦ raised type_error
]

-- `if required not in wrapped: raise ValueError`
has_field : Bytes → Fields → Result (Unit {0})
unfolding get
has_field name wrapped = elim (get name wrapped) [ none ↦ raised value_error | some v ↦ ok tt ]

-- The three fields that the envelopes of two suites share.
unfoldable pub envelope : Bytes → Bytes → Bytes → Fields
unfolding hex
envelope eph_pub nonce wrapped =
    field (codes "ephemeral_pub") (str (hex eph_pub)) (
      field (codes "nonce") (str (hex nonce)) (field (codes "wrapped_dek") (str (hex wrapped)) end))

unfoldable pub hybrid_envelope : Bytes → Bytes → Bytes → Bytes → Fields
unfolding hex
hybrid_envelope eph_pub mlkem_ct nonce wrapped =
    field (codes "suite") (str (codes "OSGT-HYBRID-v1")) (
      field (codes "x25519_ephemeral_pub") (str (hex eph_pub)) (
        field (codes "mlkem_ciphertext") (str (hex mlkem_ct)) (
          field (codes "nonce") (str (hex nonce))
            (field (codes "wrapped_dek") (str (hex wrapped)) end))))

module _ (p : Primitives) where
  -- The nonce is drawn by the call.
  unfoldable pub aead_encrypt : Bytes → Bytes → Bytes → Bytes → Result (Bytes × Bytes)
  aead_encrypt nonce key plaintext aad = do
    sized ← guard (length key == 32) assertion_error
    ct ← or_raise (p.aead_seal key nonce aad plaintext) crypto_error
    ok (nonce, ct)

  unfoldable pub aead_decrypt : Bytes → Bytes → Bytes → Bytes → Result Bytes
  aead_decrypt key nonce ciphertext aad =
      or_raise (p.aead_open key nonce aad ciphertext) crypto_error

  -- `eph` is the ephemeral private key, given or generated.
  unfoldable pub wrap_dek_for_recipient : Bytes → Bytes → Bytes → Bytes → Result Fields
  unfolding aead_encrypt envelope
  wrap_dek_for_recipient eph nonce dek recipient_x25519_pub = do
    shared ← or_raise (p.x25519_exchange eph recipient_x25519_pub) value_error
    let kek = p.hkdf (codes "oversight-v1-dek-wrap") shared
    (drawn, wrapped) ← aead_encrypt nonce kek dek (codes "oversight-dek")
    eph_pub ← or_raise (p.x25519_public eph) value_error
    ok (envelope eph_pub drawn wrapped)

  unfoldable pub unwrap_dek : Fields → Bytes → Result Bytes
  unfolding aead_decrypt hex_field
  unwrap_dek wrapped recipient_x25519_priv = do
    keyed ← guard (length recipient_x25519_priv == 32) value_error
    eph_pub ← hex_field (codes "ephemeral_pub") wrapped
    shared ← or_raise (p.x25519_exchange recipient_x25519_priv eph_pub) value_error
    let kek = p.hkdf (codes "oversight-v1-dek-wrap") shared
    nonce ← hex_field (codes "nonce") wrapped
    ct ← hex_field (codes "wrapped_dek") wrapped
    aead_decrypt kek nonce ct (codes "oversight-dek")

  unfoldable pub wrap_dek_for_recipient_p256 : Bytes → Bytes → Bytes → Bytes → Result Fields
  unfolding aead_encrypt envelope
  wrap_dek_for_recipient_p256 eph nonce dek recipient_p256_pub_sec1 = do
    sized ← guard (length recipient_p256_pub_sec1 == 65) value_error
    shared ← or_raise (p.p256_exchange eph recipient_p256_pub_sec1) value_error
    let kek = p.hkdf (codes "oversight-hw-p256-v1-dek-wrap") shared
    (drawn, wrapped) ← aead_encrypt nonce kek dek (codes "oversight-hw-p256-dek")
    eph_pub_bytes ← or_raise (p.p256_public eph) value_error
    long ← guard (length eph_pub_bytes == 65) runtime_error
    ok (
        field (codes "suite") (str (codes "OSGT-HW-P256-v1"))
          (envelope eph_pub_bytes drawn wrapped))

  -- The private key is given as bytes that the exchange takes.
  unfoldable pub unwrap_dek_p256 : Fields → Bytes → Result Bytes
  unfolding aead_decrypt hex_field has_field
  unwrap_dek_p256 wrapped recipient_p256_priv = do
    first ← has_field (codes "ephemeral_pub") wrapped
    second ← has_field (codes "nonce") wrapped
    third ← has_field (codes "wrapped_dek") wrapped
    eph_pub_bytes ← hex_field (codes "ephemeral_pub") wrapped
    sized ← guard (length eph_pub_bytes == 65) value_error
    shared ← or_raise (p.p256_exchange recipient_p256_priv eph_pub_bytes) value_error
    let kek = p.hkdf (codes "oversight-hw-p256-v1-dek-wrap") shared
    nonce ← hex_field (codes "nonce") wrapped
    ct ← hex_field (codes "wrapped_dek") wrapped
    aead_decrypt kek nonce ct (codes "oversight-hw-p256-dek")

  -- The key material is both secrets with the ephemeral key and the ciphertext.
  unfoldable pub hybrid_wrap_dek : Bytes → Bytes → Bytes → Bytes → Bytes → Bytes → Result Fields
  unfolding aead_encrypt hybrid_envelope
  hybrid_wrap_dek eph nonce coins dek x25519_pub mlkem_pub = do
    linked ← guard p.pq_available runtime_error
    sized ← guard (length x25519_pub == 32) value_error
    ss_x ← or_raise (p.x25519_exchange eph x25519_pub) value_error
    (mlkem_ct, ss_pq) ← or_raise (p.kem_encap coins mlkem_pub) crypto_error
    eph_pub ← or_raise (p.x25519_public eph) value_error
    let ikm = ss_x ++ (ss_pq ++ (eph_pub ++ mlkem_ct))
    let kek = p.hkdf (codes "oversight-hybrid-v1-dek-wrap") ikm
    (drawn, wrapped) ← aead_encrypt nonce kek dek (codes "oversight-hybrid-dek")
    ok (hybrid_envelope eph_pub mlkem_ct drawn wrapped)

  unfoldable pub hybrid_unwrap_dek : Fields → Bytes → Bytes → Result Bytes
  unfolding aead_decrypt hex_field has_field
  hybrid_unwrap_dek wrapped x25519_priv mlkem_priv = do
    linked ← guard p.pq_available runtime_error
    first ← has_field (codes "x25519_ephemeral_pub") wrapped
    second ← has_field (codes "mlkem_ciphertext") wrapped
    third ← has_field (codes "nonce") wrapped
    fourth ← has_field (codes "wrapped_dek") wrapped
    eph_pub_bytes ← hex_field (codes "x25519_ephemeral_pub") wrapped
    mlkem_ct ← hex_field (codes "mlkem_ciphertext") wrapped
    ss_x ← or_raise (p.x25519_exchange x25519_priv eph_pub_bytes) value_error
    ss_pq ← or_raise (p.kem_decap mlkem_priv mlkem_ct) crypto_error
    let ikm = ss_x ++ (ss_pq ++ (eph_pub_bytes ++ mlkem_ct))
    let kek = p.hkdf (codes "oversight-hybrid-v1-dek-wrap") ikm
    nonce ← hex_field (codes "nonce") wrapped
    ct ← hex_field (codes "wrapped_dek") wrapped
    aead_decrypt kek nonce ct (codes "oversight-hybrid-dek")

  unfoldable pub sign_manifest : Bytes → Bytes → Result Bytes
  sign_manifest manifest_bytes ed25519_priv =
      or_raise (p.ed25519_sign ed25519_priv manifest_bytes) value_error

  -- Every exception counts as a refusal.
  unfoldable pub verify_manifest : Bytes → Bytes → Bytes → Bool
  verify_manifest manifest_bytes signature ed25519_pub =
      p.ed25519_verify ed25519_pub signature manifest_bytes

  unfoldable pub content_hash : Bytes → Bytes
  unfolding hex
  content_hash plaintext = hex (p.sha256 plaintext)
