-- ===== src/Crypto/Wrapping.antt =====
-- What is wrapped for a recipient is unwrapped by him, in each suite.
use oversight.Prelude.{
  true, ◌≡◌, refl, sym, ◌∙◌, some, ◌++◌, Bytes, IsBytes, codes, length, ◌==◌, ==_iff,
}
use oversight.Json.{Fields, get, str, field}
use oversight.Hex.Laws.{fromhex-hex}
use oversight.Result.{ok}
use oversight.Crypto.{
  Primitives, wrap_dek_for_recipient, unwrap_dek, wrap_dek_for_recipient_p256, unwrap_dek_p256,
  hybrid_wrap_dek, hybrid_unwrap_dek, hex_field, has_field, aead_encrypt, aead_decrypt, envelope,
  hybrid_envelope,
}

-- What the packages document: a derived key is 32 bytes, a text sealed under a key of 32 bytes and
-- a nonce of 24 opens again, and two sides of an exchange compute one secret.
pub record IsLawful (p : Primitives) : Type 0 where
  pub derived : (info ikm : Bytes) → length (p.hkdf info ikm) ≡ 32
  pub opens :
      (key nonce aad text : Bytes)
      → length key ≡ 32
      → length nonce ≡ 24
      → IsBytes text
      → (ct : Bytes) × (p.aead_seal key nonce aad text ≡ some ct)
        × IsBytes ct
        × (p.aead_open key nonce aad ct ≡ some text)
  pub x25519_agrees :
      (a b a_pub b_pub : Bytes)
      → p.x25519_public a ≡ some a_pub
      → p.x25519_public b ≡ some b_pub
      → p.x25519_exchange a b_pub ≡ p.x25519_exchange b a_pub
  pub p256_agrees :
      (a b a_pub b_pub : Bytes)
      → p.p256_public a ≡ some a_pub
      → p.p256_public b ≡ some b_pub
      → p.p256_exchange a b_pub ≡ p.p256_exchange b a_pub

module _ (p : Primitives) (laws : IsLawful p) (nonce dek : Bytes) (sized : length nonce ≡ 24)
    (nonce_bytes : IsBytes nonce) (dek_bytes : IsBytes dek) where
  keyed : (info ikm : Bytes) → (length (p.hkdf info ikm) == 32) ≡ true
  keyed info ikm = (==_iff (length (p.hkdf info ikm)) 32).1 (laws.derived info ikm)

  -- For a recipient with a private key of 32 bytes, and an ephemeral key whose exchange with his
  -- public key has a secret, wrapping returns an envelope, and he unwraps the key from it. The
  -- primitives keep their documented laws.
  pub unwrap_dek-wrap_dek_for_recipient :
      (eph priv eph_pub pub_key shared : Bytes)
      → length priv ≡ 32
      → IsBytes eph_pub
      → p.x25519_public eph ≡ some eph_pub
      → p.x25519_public priv ≡ some pub_key
      → p.x25519_exchange eph pub_key ≡ some shared
      → (w : Fields) × (wrap_dek_for_recipient p eph nonce dek pub_key ≡ ok w)
        × (unwrap_dek p w priv ≡ ok dek)
  unfolding wrap_dek_for_recipient unwrap_dek aead_encrypt aead_decrypt hex_field envelope get
  unwrap_dek-wrap_dek_for_recipient eph priv eph_pub pub_key shared long eph_bytes e r x =
      let info = codes "oversight-v1-dek-wrap" in
      let (ct, sealed, ct_bytes, opened) =
        laws.opens (p.hkdf info shared) nonce (codes "oversight-dek") dek (laws.derived info shared)
          sized dek_bytes in
      let theirs = sym (laws.x25519_agrees eph priv eph_pub pub_key e r) ∙ x in
      let private : (length priv == 32) ≡ true = (==_iff (length priv) 32).1 long in
      (
        envelope eph_pub nonce ct,
        rw (x, keyed info shared, sealed, e) refl,
        rw
            (
              private,
              fromhex-hex eph_pub eph_bytes,
              theirs,
              fromhex-hex nonce nonce_bytes,
              fromhex-hex ct ct_bytes,
              opened,
            )
            refl,
      )

  -- The same for a P-256 recipient; the ephemeral public key has the 65 bytes of its form.
  pub unwrap_dek_p256-wrap_dek_for_recipient_p256 :
      (eph priv eph_pub pub_key shared : Bytes)
      → length pub_key ≡ 65
      → length eph_pub ≡ 65
      → IsBytes eph_pub
      → p.p256_public eph ≡ some eph_pub
      → p.p256_public priv ≡ some pub_key
      → p.p256_exchange eph pub_key ≡ some shared
      → (w : Fields) × (wrap_dek_for_recipient_p256 p eph nonce dek pub_key ≡ ok w)
        × (unwrap_dek_p256 p w priv ≡ ok dek)
  unfolding wrap_dek_for_recipient_p256 unwrap_dek_p256 aead_encrypt aead_decrypt hex_field
      has_field envelope get
  unwrap_dek_p256-wrap_dek_for_recipient_p256 eph priv eph_pub pub_key shared long wide eph_bytes e
        r x =
      let info = codes "oversight-hw-p256-v1-dek-wrap" in
      let (ct, sealed, ct_bytes, opened) =
        laws.opens (p.hkdf info shared) nonce (codes "oversight-hw-p256-dek") dek
          (laws.derived info shared) sized dek_bytes in
      let theirs = sym (laws.p256_agrees eph priv eph_pub pub_key e r) ∙ x in
      let outer : (length pub_key == 65) ≡ true = (==_iff (length pub_key) 65).1 long in
      let inner : (length eph_pub == 65) ≡ true = (==_iff (length eph_pub) 65).1 wide in
      (
        field (codes "suite") (str (codes "OSGT-HW-P256-v1")) (envelope eph_pub nonce ct),
        rw (outer, x, keyed info shared, sealed, e, inner) refl,
        rw
            (
              fromhex-hex eph_pub eph_bytes,
              inner,
              theirs,
              fromhex-hex nonce nonce_bytes,
              fromhex-hex ct ct_bytes,
              opened,
            )
            refl,
      )

  -- In the hybrid suite, where oqs is installed, for a recipient whose X25519 key and the ephemeral
  -- key have a secret, and who decapsulates the encapsulated secret, wrapping returns an envelope, and
  -- he unwraps the key from it. The primitives keep their documented laws.
  pub hybrid_unwrap_dek-hybrid_wrap_dek :
      (eph coins priv kem_priv eph_pub pub_key kem_pub shared mlkem_ct ss_pq : Bytes)
      → p.pq_available ≡ true
      → length pub_key ≡ 32
      → IsBytes eph_pub
      → IsBytes mlkem_ct
      → p.x25519_public eph ≡ some eph_pub
      → p.x25519_public priv ≡ some pub_key
      → p.x25519_exchange eph pub_key ≡ some shared
      → p.kem_encap coins kem_pub ≡ some (mlkem_ct, ss_pq)
      → p.kem_decap kem_priv mlkem_ct ≡ some ss_pq
      → (w : Fields) × (hybrid_wrap_dek p eph nonce coins dek pub_key kem_pub ≡ ok w)
        × (hybrid_unwrap_dek p w priv kem_priv ≡ ok dek)
  unfolding hybrid_wrap_dek hybrid_unwrap_dek aead_encrypt aead_decrypt hex_field has_field
      hybrid_envelope get
  hybrid_unwrap_dek-hybrid_wrap_dek eph coins priv kem_priv eph_pub pub_key kem_pub shared mlkem_ct
        ss_pq linked long eph_bytes ct_octets e r x encap decap =
      let info = codes "oversight-hybrid-v1-dek-wrap" in
      let ikm = shared ++ (ss_pq ++ (eph_pub ++ mlkem_ct)) in
      let (ct, sealed, ct_bytes, opened) =
        laws.opens (p.hkdf info ikm) nonce (codes "oversight-hybrid-dek") dek
          (laws.derived info ikm) sized dek_bytes in
      let theirs = sym (laws.x25519_agrees eph priv eph_pub pub_key e r) ∙ x in
      let wide : (length pub_key == 32) ≡ true = (==_iff (length pub_key) 32).1 long in
      (
        hybrid_envelope eph_pub mlkem_ct nonce ct,
        rw (linked, wide, x, encap, e, keyed info ikm, sealed) refl,
        rw
            (
              linked,
              fromhex-hex eph_pub eph_bytes,
              fromhex-hex mlkem_ct ct_octets,
              theirs,
              decap,
              fromhex-hex nonce nonce_bytes,
              fromhex-hex ct ct_bytes,
              opened,
            )
            refl,
      )
