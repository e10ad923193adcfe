-- ===== src/Container/Opening.antt =====
-- What `open_sealed` and `seal` of oversight_core/container.py promise.
use oversight.Prelude.{
  ◌≡◌, refl, sym, ap, ◌∙◌, true, inl, inr, Option, some, List, Bytes, ℤ, length, ◌==◌, ==_iff,
}
use oversight.Json.Laws.{is_text-eq-true}
use oversight.Json.{is_text, Json, str}
use oversight.Crypto.{Primitives, content_hash, aead_decrypt}
use oversight.Manifest.{Manifest, verify}
use oversight.Policy.{PolicyContext, Disk, check_policy, record_open}
use oversight.Policy.Refusal.{record_open-raised}
use oversight.Result.{
  Exception, value_error, Result, ok, raised, guard, >>=-eq-ok, guard-eq-ok, or_raise-eq-ok, ok_inj,
  Result-cases,
}
use oversight.Container.{SealedFile, from_bytes}
use oversight.Container.Seal.{
  ascii_bytes, is_trusted, recover_dek, decrypt_content, open_checked, counted, open_sealed,
}

counted-raised :
    (opened : Bytes × Manifest) (step : Disk × Result ℤ) (disk : Disk) (e : Exception)
    → ((e' : Exception) → step.1 ≡ raised e' → step.0 ≡ disk)
    → (counted opened step).1 ≡ raised e
    → (counted opened step).0 ≡ disk
unfolding counted
counted-raised opened (after, ok n) disk e harmless h = absurd (cc)
counted-raised opened (after, raised e') disk e harmless h = harmless e' refl

counted-eq-ok :
    (opened result : Bytes × Manifest) (step : Disk × Result ℤ) (after : Disk)
    → counted opened step ≡ (after, ok result)
    → (opened ≡ result) × (n : ℤ) × (step ≡ (after, ok n))
unfolding counted
counted-eq-ok opened result (d, ok n) after h = (cc, n, cc)
counted-eq-ok opened result (d, raised e') after h = absurd (cc)

-- What stands behind a text that was returned with its manifest.
pub record IsOpened (p : Primitives) (loads : Bytes → Option Json) (blob priv : Bytes)
    (trusted : Option (List Bytes)) (ctx : Option PolicyContext) (now later : ℤ) (disk after : Disk)
    (plaintext : Bytes) (m : Manifest) : Type 0 where
  pub file : SealedFile
  pub dek : Bytes
  pub aad : Bytes
  pub opens : ℤ
  pub keyed : length priv ≡ 32
  pub parsed : from_bytes loads blob ≡ ok file
  pub same_manifest : file.manifest ≡ m
  pub verified : verify p m ≡ ok true
  pub from_trusted : is_trusted m.issuer_ed25519_pub trusted ≡ true
  pub allowed : check_policy m ctx now ≡ ok tt
  pub recovered : recover_dek p file.wrapped_dek priv ≡ ok dek
  pub bound : ascii_bytes m.content_hash ≡ ok aad
  pub decrypted : p.aead_open dek file.aead_nonce aad file.ciphertext ≡ some plaintext
  pub hashed : m.content_hash ≡ str (content_hash p plaintext)
  pub recorded : record_open m ctx later disk ≡ (after, ok opens)

decrypt_content-eq-ok :
    (p : Primitives) (sf : SealedFile) (priv plaintext : Bytes)
    → decrypt_content p sf priv ≡ ok plaintext
    → (dek aad : Bytes) × (recover_dek p sf.wrapped_dek priv ≡ ok dek)
      × (ascii_bytes sf.manifest.content_hash ≡ ok aad)
      × (p.aead_open dek sf.aead_nonce aad sf.ciphertext ≡ some plaintext)
      × (sf.manifest.content_hash ≡ str (content_hash p plaintext))
unfolding decrypt_content aead_decrypt
decrypt_content-eq-ok p sf priv plaintext h =
    let (dek, recovered, h1) = >>=-eq-ok (recover_dek p sf.wrapped_dek priv) _ h in
    let (aad, bound, h2) = >>=-eq-ok (ascii_bytes sf.manifest.content_hash) _ h1 in
    let (text, decrypted, h3) =
      >>=-eq-ok (aead_decrypt p dek sf.aead_nonce sf.ciphertext aad) _ h2 in
    let hash_agrees = is_text (content_hash p text) sf.manifest.content_hash in
    let (_, hashed, h4) = >>=-eq-ok (guard hash_agrees value_error) _ h3 in
    let same : text ≡ plaintext = ok_inj h4 in
    let opened = or_raise-eq-ok (p.aead_open dek sf.aead_nonce aad sf.ciphertext) _ decrypted in
    (
      dek,
      aad,
      recovered,
      bound,
      opened ∙ ap some same,
      is_text-eq-true (content_hash p text) sf.manifest.content_hash
            (guard-eq-ok hash_agrees value_error hashed)
          ∙ ap (λ t. str (content_hash p t)) same,
    )

module _ (p : Primitives) (loads : Bytes → Option Json) (blob priv : Bytes)
    (trusted : Option (List Bytes)) (ctx : Option PolicyContext) (now later : ℤ) (disk : Disk) where
  -- Where `open_sealed` raises, for whatever reason, no counter of opens has changed.
  pub open_sealed-raised :
      (e : Exception)
      → (open_sealed p loads blob priv trusted ctx now later disk).1 ≡ raised e
      → (open_sealed p loads blob priv trusted ctx now later disk).0 ≡ disk
  unfolding open_sealed
  open_sealed-raised e h = elim (Result-cases (open_checked p loads blob priv trusted ctx now)) [
    | inr (e', q) ↦ rw (q, open_sealed) refl
    | inl (opened, q) ↦
        let h' : (counted opened (record_open opened.1 ctx later disk)).1 ≡ raised e =
          rw (q, open_sealed) at h in
        rw (q, open_sealed)
          (counted-raised opened (record_open opened.1 ctx later disk) disk e
            (record_open-raised opened.1 ctx later disk) h')
  ]

  open_checked-IsOpened :
      (after : Disk) (plaintext : Bytes) (m : Manifest) (n : ℤ)
      → open_checked p loads blob priv trusted ctx now ≡ ok (plaintext, m)
      → record_open m ctx later disk ≡ (after, ok n)
      → IsOpened p loads blob priv trusted ctx now later disk after plaintext m
  unfolding open_checked
  open_checked-IsOpened after plaintext m n h recorded =
      let (_, sized, h1) = >>=-eq-ok (guard (length priv == 32) value_error) _ h in
      let (sf, parsed, h2) = >>=-eq-ok (from_bytes loads blob) _ h1 in
      let (signed, verified, h3) = >>=-eq-ok (verify p sf.manifest) _ h2 in
      let (_, valid, h4) = >>=-eq-ok (guard signed value_error) _ h3 in
      let (_, from_trusted, h5) =
        >>=-eq-ok (guard (is_trusted sf.manifest.issuer_ed25519_pub trusted) value_error) _ h4 in
      let (u, allowed, h6) = >>=-eq-ok (check_policy sf.manifest ctx now) _ h5 in
      let (text, decrypts, h7) = >>=-eq-ok (decrypt_content p sf priv) _ h6 in
      let same = ok_inj h7 in
      let same_text : text ≡ plaintext = ap (λ (o : Bytes × Manifest). o.0) same in
      let same_manifest : sf.manifest ≡ m = ap (λ (o : Bytes × Manifest). o.1) same in
      let is_valid = guard-eq-ok signed value_error valid in
      let (dek, aad, recovered, bound, decrypted, hashed) =
        decrypt_content-eq-ok p sf priv text decrypts in
      record {
        file = sf;
        dek = dek;
        aad = aad;
        opens = n;
        keyed = (==_iff (length priv) 32).0 (guard-eq-ok (length priv == 32) value_error sized);
        parsed = parsed;
        same_manifest = same_manifest;
        verified = ap (verify p) (sym same_manifest) ∙ verified ∙ ap ok is_valid;
        from_trusted =
            ap (λ (x : Manifest). is_trusted x.issuer_ed25519_pub trusted) (sym same_manifest)
            ∙ guard-eq-ok (is_trusted sf.manifest.issuer_ed25519_pub trusted) value_error
                from_trusted;
        allowed = ap (λ (x : Manifest). check_policy x ctx now) (sym same_manifest) ∙ allowed;
        recovered = recovered;
        bound = ap (λ (x : Manifest). ascii_bytes x.content_hash) (sym same_manifest) ∙ bound;
        decrypted = decrypted ∙ ap some same_text;
        hashed =
            ap (λ (x : Manifest). x.content_hash) (sym same_manifest)
            ∙ hashed
            ∙ ap (λ t. str (content_hash p t)) same_text;
        recorded = recorded;
      }

  -- Where `open_sealed` returns a text and a manifest, the key has 32 bytes; the bytes parse to a
  -- sealed file with that manifest; its signature verifies; its issuer is one of the trusted, where a
  -- set of them is given; its policy allows the opening; the text is what the file's key decrypts
  -- under the content hash, which is the hash of the text; and the disk is the one that `record_open`
  -- left when it counted the open.
  pub open_sealed-eq-ok :
      (after : Disk) (plaintext : Bytes) (m : Manifest)
      → open_sealed p loads blob priv trusted ctx now later disk ≡ (after, ok (plaintext, m))
      → IsOpened p loads blob priv trusted ctx now later disk after plaintext m
  unfolding open_sealed open_checked decrypt_content
  open_sealed-eq-ok after plaintext m h =
      elim (Result-cases (open_checked p loads blob priv trusted ctx now)) [
        | inr (e, q) ↦
            let h' : (disk, raised e) ≡ (after, ok (plaintext, m)) = rw (q, open_sealed) at h in
            absurd (cc)
        | inl (opened, q) ↦
            let h' : counted opened (record_open opened.1 ctx later disk)
                ≡ (after, ok (plaintext, m)) =
              rw (q, open_sealed) at h in
            let (same, n, recorded) =
              counted-eq-ok opened (plaintext, m) (record_open opened.1 ctx later disk) after h' in
            open_checked-IsOpened after plaintext m n (q ∙ ap ok same)
              (ap (λ (o : Bytes × Manifest). record_open o.1 ctx later disk) (sym same) ∙ recorded)
      ]
