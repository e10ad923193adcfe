-- ===== src/Container/Sealed.antt =====
-- What `seal` of oversight_core/container.py did where it returned bytes.
use oversight.Prelude.{
  ◌≡◌, refl, sym, ap, ◌∙◌, inl, inr, none, some, Bytes, codes, length, ◌==◌, ==_iff,
}
use oversight.Json.{is_text, Fields, str, get}
use oversight.Crypto.{Primitives, wrap_dek_for_recipient, content_hash, aead_encrypt, envelope}
use oversight.Manifest.{Manifest, sign}
use oversight.Result.{
  value_error, Result, ok, raised, guard, or_raise, >>=-eq-ok, guard-eq-ok, or_raise-eq-ok, ok_inj,
  Result-cases, raised-ok,
}
use oversight.Container.{to_bytes}
use oversight.Json.Laws.{is_text-eq-true}
use oversight.Container.Seal.{ascii_bytes, sealable, seal_signed, seal}

module _ (p : Primitives) where
  pub wrapped_plain :
      (eph nonce dek pub_key : Bytes) (w : Fields)
      → wrap_dek_for_recipient p eph nonce dek pub_key ≡ ok w
      → get (codes "slots") w ≡ none
  unfolding wrap_dek_for_recipient get envelope
  wrapped_plain eph nonce dek pub_key w h =
      let (shared, _, h1) = >>=-eq-ok (or_raise (p.x25519_exchange eph pub_key) value_error) _ h in
      let ((drawn, ct), _, h2) =
        >>=-eq-ok
          (aead_encrypt p nonce (p.hkdf (codes "oversight-v1-dek-wrap") shared) dek
            (codes "oversight-dek"))
          _ h1 in
      let (eph_pub, _, h3) = >>=-eq-ok (or_raise (p.x25519_public eph) value_error) _ h2 in
      let shape : envelope eph_pub drawn ct ≡ w = ok_inj h3 in rw⁻¹ shape refl

  pub aead_encrypt-eq-ok :
      (nonce key text aad drawn ct : Bytes)
      → aead_encrypt p nonce key text aad ≡ ok (drawn, ct)
      → (nonce ≡ drawn) × (length key ≡ 32) × (p.aead_seal key nonce aad text ≡ some ct)
  unfolding aead_encrypt
  aead_encrypt-eq-ok nonce key text aad drawn ct h =
      let (_, sized, h1) = >>=-eq-ok (guard (length key == 32) _) _ h in
      let (c, sealed, h2) = >>=-eq-ok (or_raise (p.aead_seal key nonce aad text) _) _ h1 in
      let same : (nonce, c) ≡ (drawn, ct) = ok_inj h2 in
      (
        ap (λ (x : Bytes × Bytes). x.0) same,
        (==_iff (length key) 32).0 (guard-eq-ok (length key == 32) _ sized),
        or_raise-eq-ok (p.aead_seal key nonce aad text) _ sealed
            ∙ ap (λ (x : Bytes × Bytes). some x.1) same,
      )

  pub sealable-eq-ok :
      (plaintext issuer_priv pub_key : Bytes) (m : Manifest)
      → sealable p plaintext issuer_priv pub_key m ≡ ok tt
      → m.content_hash ≡ str (content_hash p plaintext)
  unfolding sealable
  sealable-eq-ok plaintext issuer_priv pub_key m h =
      let agrees = is_text (content_hash p plaintext) m.content_hash in
      let (_, hashed, h1) = >>=-eq-ok (guard agrees value_error) _ h in
      is_text-eq-true (content_hash p plaintext) m.content_hash
        (guard-eq-ok agrees value_error hashed)

  module _ (eph wrap_nonce dek nonce plaintext : Bytes) (m : Manifest)
      (issuer_priv pub_key : Bytes) where
    pub seal-eq-ok :
        (signed : Manifest) (blob : Bytes)
        → seal p eph wrap_nonce dek nonce plaintext m issuer_priv pub_key ≡ (signed, ok blob)
        → (sealable p plaintext issuer_priv pub_key m ≡ ok tt)
          × (sign p issuer_priv m ≡ ok signed)
          × (seal_signed p eph wrap_nonce dek nonce plaintext pub_key signed ≡ ok blob)
    unfolding seal
    seal-eq-ok signed blob h = elim (Result-cases (sealable p plaintext issuer_priv pub_key m)) [
      | inr (e, q) ↦
          let h' : (m, raised e) ≡ (signed, ok blob) = rw (q, seal) at h in
          raised-ok (ap (λ (x : Manifest × Result Bytes). x.1) h')
      | inl (u, q) ↦ elim (Result-cases (sign p issuer_priv m)) [
        | inr (e, q') ↦
            let h' : (m, raised e) ≡ (signed, ok blob) = rw (q, q', seal) at h in
            raised-ok (ap (λ (x : Manifest × Result Bytes). x.1) h')
        | inl (s, q') ↦
            let h' : (s, seal_signed p eph wrap_nonce dek nonce plaintext pub_key s)
                ≡ (signed, ok blob) =
              rw (q, q', seal) at h in
            let same : s ≡ signed = ap (λ (x : Manifest × Result Bytes). x.0) h' in
            (
              q,
              q' ∙ ap ok same,
              ap (λ (x : Manifest). seal_signed p eph wrap_nonce dek nonce plaintext pub_key x)
                    (sym same)
                  ∙ ap (λ (x : Manifest × Result Bytes). x.1) h',
            )
      ]
    ]

    -- Where `seal` returns bytes, they are those of the sealed file with the signed manifest.
    pub seal_signed-eq-ok :
        (signed : Manifest) (blob : Bytes)
        → seal_signed p eph wrap_nonce dek nonce plaintext pub_key signed ≡ ok blob
        → (w : Fields) × (aad : Bytes) × (ct : Bytes) × (wrap_dek_for_recipient p eph wrap_nonce dek
              pub_key
            ≡ ok w)
          × (ascii_bytes signed.content_hash ≡ ok aad)
          × (p.aead_seal dek nonce aad plaintext ≡ some ct)
          × (length dek ≡ 32)
          × (to_bytes (record {
            manifest = signed;
            wrapped_dek = w;
            aead_nonce = nonce;
            ciphertext = ct;
            suite_id = 1;
          })
              ≡ ok blob)
    unfolding seal_signed
    seal_signed-eq-ok signed blob h =
        let (w, wrapped, h1) =
          >>=-eq-ok (wrap_dek_for_recipient p eph wrap_nonce dek pub_key) _ h in
        let (aad, bound, h2) = >>=-eq-ok (ascii_bytes signed.content_hash) _ h1 in
        let ((drawn, ct), sealed, h3) = >>=-eq-ok (aead_encrypt p nonce dek plaintext aad) _ h2 in
        let (same, sized, cipher) = aead_encrypt-eq-ok nonce dek plaintext aad drawn ct sealed in
        (
          w,
          aad,
          ct,
          wrapped,
          bound,
          cipher,
          sized,
          ap
                (λ (x : Bytes). to_bytes (record {
                  manifest = signed;
                  wrapped_dek = w;
                  aead_nonce = x;
                  ciphertext = ct;
                  suite_id = 1;
                }))
                same
              ∙ h3,
        )
