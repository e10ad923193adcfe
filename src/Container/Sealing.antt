-- ===== src/Container/Sealing.antt =====
-- What `seal` of oversight_core/container.py writes, and `open_sealed` of it.
use oversight.Container.Sealed.{wrapped_plain, sealable-eq-ok, seal-eq-ok, seal_signed-eq-ok}
use oversight.Prelude.{
  ◌^◌, ◌≤◌, ◌<◌, ◌≡◌, refl, sym, ap, ◌∙◌, true, Option, some, List, Bytes, IsBytes, ℤ, codes,
  length, ◌==◌, ==_iff, beq_self,
}
use oversight.Json.{is_text, Json, Fields, dict, str}
use oversight.Jcs.{jcs_dumps}
use oversight.Hex.{hex}
use oversight.Crypto.{Primitives, wrap_dek_for_recipient, unwrap_dek, content_hash, aead_decrypt}
use oversight.Crypto.Wrapping.{IsLawful, unwrap_dek-wrap_dek_for_recipient}
use oversight.Manifest.{Manifest, verify, to_json}
use oversight.Manifest.Parser.{from_json}
use oversight.Manifest.Signing.{SignsFor, verify-sign}
use oversight.Policy.{PolicyContext, Disk, check_policy, record_open}
use oversight.Result.{value_error, ok, ok_inj, some_inj, >>=-ok, guard-true, passed-ok}
use oversight.Container.{
  SealedFile, from_bytes, max_manifest_bytes, max_wrapped_dek_bytes, suite_name,
}
use oversight.Container.Layout.{from_bytes-to_bytes}
use oversight.Container.Seal.{
  ascii_bytes, is_trusted, recover_dek, decrypt_content, open_checked, counted, open_sealed, seal,
}

-- The JSON reader reads back the two texts that `to_bytes` writes of a sealed file, and they are
-- within the caps of the parser.
pub record IsReadable (loads : Bytes → Option Json) (sf : SealedFile) : Type 0 where
  pub manifest_json : Bytes
  pub wrapped_json : Bytes
  pub printed : to_json sf.manifest ≡ ok manifest_json
  pub reread : from_json loads manifest_json ≡ ok sf.manifest
  pub dumped : jcs_dumps (dict sf.wrapped_dek) ≡ some wrapped_json
  pub reloaded : loads wrapped_json ≡ some (dict sf.wrapped_dek)
  pub manifest_size : length manifest_json ≤ max_manifest_bytes
  pub wrapped_size : length wrapped_json ≤ max_wrapped_dek_bytes
  pub ciphertext_size : length sf.ciphertext < 2 ^ 32

module _ (p : Primitives) (laws : IsLawful p) (loads : Bytes → Option Json) where
  -- The steps of opening, on a file that meets them.
  open_file :
      (sf : SealedFile) (blob priv dek aad plaintext : Bytes) (trusted : Option (List Bytes))
      (ctx : Option PolicyContext) (now later : ℤ) (disk after : Disk) (n : ℤ)
      → length priv ≡ 32
      → from_bytes loads blob ≡ ok sf
      → verify p sf.manifest ≡ ok true
      → is_trusted sf.manifest.issuer_ed25519_pub trusted ≡ true
      → check_policy sf.manifest ctx now ≡ ok tt
      → recover_dek p sf.wrapped_dek priv ≡ ok dek
      → ascii_bytes sf.manifest.content_hash ≡ ok aad
      → p.aead_open dek sf.aead_nonce aad sf.ciphertext ≡ some plaintext
      → is_text (content_hash p plaintext) sf.manifest.content_hash ≡ true
      → record_open sf.manifest ctx later disk ≡ (after, ok n)
      → open_sealed p loads blob priv trusted ctx now later disk
        ≡ (after, ok (plaintext, sf.manifest))
  unfolding open_sealed open_checked decrypt_content aead_decrypt counted
  open_file sf blob priv dek aad plaintext trusted ctx now later disk after n sized parsed verified
        from_trusted allowed recovered bound decrypted hashed recorded =
      let keyed = guard-true (length priv == 32) value_error ((==_iff (length priv) 32).1 sized) in
      let trusts =
        guard-true (is_trusted sf.manifest.issuer_ed25519_pub trusted) value_error from_trusted in
      let decrypts : decrypt_content p sf priv ≡ ok plaintext =
        rw (recovered, bound, decrypted, hashed) refl in
      let checked : open_checked p loads blob priv trusted ctx now ≡ ok (plaintext, sf.manifest) =
        passed-ok _ keyed (
          >>=-ok _ _ parsed (
            >>=-ok _ _ verified
              (passed-ok _ trusts (passed-ok _ allowed (>>=-ok _ _ decrypts refl))))) in
      rw (checked, recorded, open_sealed) refl

  -- Where `seal` returns bytes for a recipient, with a manifest of the classic suite that names the
  -- key of the issuer who signs, the recipient's private key opens them: `open_sealed` returns the
  -- text and the signed manifest, when the issuer is trusted, the policy allows it at the time and
  -- the open is counted. The file is within the caps of the parser, its two texts are read back by
  -- the JSON reader, and the primitives keep their documented laws.
  pub open_sealed-seal :
      (eph wrap_nonce dek nonce plaintext issuer_priv issuer_pub priv eph_pub pub_key shared
        blob : Bytes)
      (m signed : Manifest) (trusted : Option (List Bytes)) (ctx : Option PolicyContext)
      (now later : ℤ) (disk after : Disk) (n : ℤ)
      → SignsFor p issuer_priv issuer_pub
      → m.issuer_ed25519_pub ≡ str (hex issuer_pub)
      → m.suite ≡ str (codes "OSGT-CLASSIC-v1")
      → length wrap_nonce ≡ 24
      → length nonce ≡ 24
      → IsBytes wrap_nonce
      → IsBytes dek
      → IsBytes plaintext
      → length priv ≡ 32
      → IsBytes eph_pub
      → p.x25519_public eph ≡ some eph_pub
      → p.x25519_public priv ≡ some pub_key
      → p.x25519_exchange eph pub_key ≡ some shared
      → ((w : Fields) (aad ct : Bytes)
          → wrap_dek_for_recipient p eph wrap_nonce dek pub_key ≡ ok w
          → p.aead_seal dek nonce aad plaintext ≡ some ct
          → IsReadable loads (record {
            manifest = signed;
            wrapped_dek = w;
            aead_nonce = nonce;
            ciphertext = ct;
            suite_id = 1;
          }))
      → is_trusted (str (hex issuer_pub)) trusted ≡ true
      → check_policy signed ctx now ≡ ok tt
      → record_open signed ctx later disk ≡ (after, ok n)
      → seal p eph wrap_nonce dek nonce plaintext m issuer_priv pub_key ≡ (signed, ok blob)
      → open_sealed p loads blob priv trusted ctx now later disk ≡ (after, ok (plaintext, signed))
  unfolding recover_dek suite_name is_text
  open_sealed-seal eph wrap_nonce dek nonce plaintext issuer_priv issuer_pub priv eph_pub pub_key
        shared blob m signed trusted ctx now later disk after n keys issuer suite wrap_sized sized
        wrap_bytes dek_bytes text_bytes long eph_bytes e r x readable trusts allowed recorded h =
      let (checked, signs, sealed) =
        seal-eq-ok p eph wrap_nonce dek nonce plaintext m issuer_priv pub_key signed blob h in
      let (same, verified) = verify-sign p issuer_priv issuer_pub m signed keys issuer signs in
      let (w, aad, ct, wrapped, bound, cipher, keyed, written) =
        seal_signed-eq-ok p eph wrap_nonce dek nonce plaintext m issuer_priv pub_key signed blob
          sealed in
      let (w', wrapped', unwraps) =
        unwrap_dek-wrap_dek_for_recipient p laws wrap_nonce dek wrap_sized wrap_bytes dek_bytes eph
          priv eph_pub pub_key shared long eph_bytes e r x in
      let same_w : w' ≡ w = ok_inj (sym wrapped' ∙ wrapped) in
      let (ct', cipher', _, opens) = laws.opens dek nonce aad plaintext keyed sized text_bytes in
      let same_ct : some ct' ≡ some ct = sym cipher' ∙ cipher in
      let sf : SealedFile = record {
        manifest = signed;
        wrapped_dek = w;
        aead_nonce = nonce;
        ciphertext = ct;
        suite_id = 1;
      } in
      let ready : IsReadable loads sf = readable w aad ct wrapped cipher in
      let hashed : signed.content_hash ≡ str (content_hash p plaintext) =
        ap (λ (y : Manifest). y.content_hash) same
        ∙ sealable-eq-ok p plaintext issuer_priv pub_key m checked in
      let suited : signed.suite ≡ str (codes "OSGT-CLASSIC-v1") =
        ap (λ (y : Manifest). y.suite) same ∙ suite in
      let issued : signed.issuer_ed25519_pub ≡ str (hex issuer_pub) =
        ap (λ (y : Manifest). y.issuer_ed25519_pub) same ∙ issuer in
      let parsed : from_bytes loads blob ≡ ok sf =
        from_bytes-to_bytes loads sf blob ready.manifest_json ready.wrapped_json
          (codes "OSGT-CLASSIC-v1") written ready.printed ready.dumped ready.reread ready.reloaded
          refl (ap (is_text (codes "OSGT-CLASSIC-v1")) suited) ready.manifest_size
          ready.wrapped_size sized ready.ciphertext_size in
      let recovered : recover_dek p w priv ≡ ok dek =
        rw (wrapped_plain p eph wrap_nonce dek pub_key w wrapped, recover_dek)
          (ap (λ y. unwrap_dek p y priv) (sym same_w) ∙ unwraps) in
      open_file sf blob priv dek aad plaintext trusted ctx now later disk after n long parsed
        verified (ap (λ i. is_trusted i trusted) issued ∙ trusts) allowed recovered bound
        (ap (λ c. p.aead_open dek nonce aad c) (sym (some_inj same_ct)) ∙ opens)
        (ap (is_text (content_hash p plaintext)) hashed ∙ beq_self (content_hash p plaintext))
        recorded
