-- ===== src/Container/Layout.antt =====
-- What `from_bytes` accepts, and what `to_bytes` writes.
use oversight.Prelude.{
  ℕ, ◌^◌, ◌≤◌, ◌<◌, ◌≡◌, ◌↔◌, refl, sym, ap, ◌∙◌, true, Option, some, [], ◌∷◌, ◌++◌, Bytes, IsBytes,
  beq, beq_iff, append-nil, length, arith, ltb,
}
use oversight.Json.{is_text, Json, dict}
use oversight.Jcs.{jcs_dumps}
use oversight.Wire.{u32_bytes}
use oversight.Manifest.{Manifest, to_json}
use oversight.Manifest.Parser.{from_json}
use oversight.Result.{
  value_error, ok, guard, or_raise, >>=-eq-ok, guard-eq-ok, or_raise-eq-ok, ok_inj,
}
use oversight.Container.{
  SealedFile, magic, max_manifest_bytes, max_wrapped_dek_bytes, max_ciphertext_bytes, suite_name,
  read_exact, read_field, read_header, read_manifest, as_dict, to_bytes, from_bytes,
}
use oversight.Container.Parts.{
  read_header_written, read_header-eq-ok, read_manifest_lem, read_manifest-eq-ok, as_dict-eq-ok,
}
use oversight.Container.Framing.{
  read_exact-append, read_exact-eq-ok, read_field-written, read_field-eq-ok, write_field_lem,
}

-- The bytes of a sealed file, part by part.
unfoldable pub layout : ℕ → Bytes → Bytes → Bytes → Bytes → Bytes
unfolding u32_bytes
layout suite_id manifest_json wrapped_json aead_nonce ciphertext =
    magic
    ++ 1
      ∷ suite_id
      ∷ (u32_bytes (length manifest_json)
          ++ (manifest_json
              ++ (u32_bytes (length wrapped_json)
                  ++ (wrapped_json
                      ++ (aead_nonce ++ (u32_bytes (length ciphertext) ++ ciphertext))))))

-- The bytes are laid out so, the lengths are within their caps, and the two JSON parts are a
-- manifest of the suite that the header names and a dictionary.
pub record IsLayout (loads : Bytes → Option Json) (blob : Bytes) (sf : SealedFile) : Type 0 where
  pub manifest_json : Bytes
  pub wrapped_json : Bytes
  pub suite : Bytes
  pub laid_out : blob ≡ layout sf.suite_id manifest_json wrapped_json sf.aead_nonce sf.ciphertext
  pub parsed : from_json loads manifest_json ≡ ok sf.manifest
  pub loaded : loads wrapped_json ≡ some (dict sf.wrapped_dek)
  pub named : suite_name sf.suite_id ≡ some suite
  pub agreed : is_text suite sf.manifest.suite ≡ true
  pub manifest_size : length manifest_json ≤ max_manifest_bytes
  pub wrapped_size : length wrapped_json ≤ max_wrapped_dek_bytes
  pub nonce_size : length sf.aead_nonce ≡ 24
  pub ciphertext_size : length sf.ciphertext < 2 ^ 32

-- The parts of the bytes, one read after the other, make up the layout.
join_parts :
    (suite_id : ℕ)
    (blob body manifest_json after_manifest wrapped_json after_wrapped nonce after_nonce ciphertext
      trailing : Bytes)
    → blob ≡ magic ++ 1 ∷ suite_id ∷ body
    → body ≡ u32_bytes (length manifest_json) ++ (manifest_json ++ after_manifest)
    → after_manifest ≡ u32_bytes (length wrapped_json) ++ (wrapped_json ++ after_wrapped)
    → after_wrapped ≡ nonce ++ after_nonce
    → after_nonce ≡ u32_bytes (length ciphertext) ++ (ciphertext ++ trailing)
    → trailing ≡ []
    → blob ≡ layout suite_id manifest_json wrapped_json nonce ciphertext
unfolding layout
join_parts suite_id blob body manifest_json after_manifest wrapped_json after_wrapped nonce
      after_nonce ciphertext trailing e1 e2 e3 e4 e5 e6 =
    rw (e1, e2, e3, e4, e5, e6, append-nil ciphertext) refl

module _ (loads : Bytes → Option Json) where
  from_bytes-layout :
      (blob : Bytes) (sf : SealedFile) → IsLayout loads blob sf → from_bytes loads blob ≡ ok sf
  unfolding from_bytes layout as_dict
  from_bytes-layout blob sf l =
      let after_nonce = u32_bytes (length sf.ciphertext) ++ sf.ciphertext in
      let after_wrapped = sf.aead_nonce ++ after_nonce in
      let after_manifest = u32_bytes (length l.wrapped_json) ++ (l.wrapped_json ++ after_wrapped) in
      let body = u32_bytes (length l.manifest_json) ++ (l.manifest_json ++ after_manifest) in
      let small : (cap n : ℕ) → n ≤ cap → cap < 2 ^ 32 → n < 2 ^ 32 =
        λ cap n p q. omega (arith, p, q) in
      let last : read_field max_ciphertext_bytes after_nonce ≡ ok (sf.ciphertext, []) =
        ap (λ r. read_field max_ciphertext_bytes (u32_bytes (length sf.ciphertext) ++ r))
          (sym (append-nil sf.ciphertext))
        ∙ read_field-written max_ciphertext_bytes sf.ciphertext []
            (omega (arith, l.ciphertext_size)) l.ciphertext_size in
      rw l.laid_out (
        rw
          (
            read_header_written sf.suite_id body,
            read_field-written max_manifest_bytes l.manifest_json after_manifest l.manifest_size
                (omega (arith, l.manifest_size)),
            read_manifest_lem loads sf.suite_id l.manifest_json l.suite sf.manifest l.parsed l.named
                l.agreed,
            read_field-written max_wrapped_dek_bytes l.wrapped_json after_wrapped l.wrapped_size
                (omega (arith, l.wrapped_size)),
            l.loaded,
            read_exact-append 24 sf.aead_nonce after_nonce l.nonce_size,
            last,
          )
          refl)

  from_bytes-IsLayout :
      (blob : Bytes) (sf : SealedFile)
      → IsBytes blob
      → from_bytes loads blob ≡ ok sf
      → IsLayout loads blob sf
  unfolding from_bytes
  from_bytes-IsLayout blob sf b h =
      let ((suite_id, body), r1, h1) = >>=-eq-ok (read_header blob) _ h in
      let ((manifest_json, after_manifest), r2, h2) =
        >>=-eq-ok (read_field max_manifest_bytes body) _ h1 in
      let (manifest, r3, h3) = >>=-eq-ok (read_manifest loads suite_id manifest_json) _ h2 in
      let ((wrapped_json, after_wrapped), r4, h4) =
        >>=-eq-ok (read_field max_wrapped_dek_bytes after_manifest) _ h3 in
      let (value, r5, h5) = >>=-eq-ok (or_raise (loads wrapped_json) value_error) _ h4 in
      let (wrapped_dek, r6, h6) = >>=-eq-ok (as_dict value) _ h5 in
      let ((aead_nonce, after_nonce), r7, h7) = >>=-eq-ok (read_exact 24 after_wrapped) _ h6 in
      let ((ciphertext, trailing), r8, h8) =
        >>=-eq-ok (read_field max_ciphertext_bytes after_nonce) _ h7 in
      let (_, r9, h9) = >>=-eq-ok (guard (beq trailing []) value_error) _ h8 in
      let (e1, o1) = read_header-eq-ok blob body suite_id r1 in
      let (e2, s2, _, _, o2) =
        read_field-eq-ok max_manifest_bytes body manifest_json after_manifest (o1 b) r2 in
      let (suite, p3, n3, a3) = read_manifest-eq-ok loads suite_id manifest_json manifest r3 in
      let (e4, s4, _, _, o4) =
        read_field-eq-ok max_wrapped_dek_bytes after_manifest wrapped_json after_wrapped o2 r4 in
      let e5 = or_raise-eq-ok (loads wrapped_json) value_error r5 in
      let e6 = as_dict-eq-ok loads value wrapped_dek r6 in
      let (e7, s7, o7) = read_exact-eq-ok 24 after_wrapped aead_nonce after_nonce r7 in
      let (e8, _, s8, _, _) =
        read_field-eq-ok max_ciphertext_bytes after_nonce ciphertext trailing ((o7 o4).1) r8 in
      let e9 = (beq_iff trailing []).0 (guard-eq-ok (beq trailing []) value_error r9) in
      let same = ok_inj h9 in
      let q1 : manifest ≡ sf.manifest = ap (λ (x : SealedFile). x.manifest) same in
      let q2 : wrapped_dek ≡ sf.wrapped_dek = ap (λ (x : SealedFile). x.wrapped_dek) same in
      let q3 : aead_nonce ≡ sf.aead_nonce = ap (λ (x : SealedFile). x.aead_nonce) same in
      let q4 : ciphertext ≡ sf.ciphertext = ap (λ (x : SealedFile). x.ciphertext) same in
      let q5 : suite_id ≡ sf.suite_id = ap (λ (x : SealedFile). x.suite_id) same in
      record {
        manifest_json = manifest_json;
        wrapped_json = wrapped_json;
        suite = suite;
        laid_out =
            join_parts suite_id blob body manifest_json after_manifest wrapped_json after_wrapped
              aead_nonce after_nonce ciphertext trailing e1 e2 e4 e7 e8 e9
            ∙ ap
                (λ (x : SealedFile).
                  layout x.suite_id manifest_json wrapped_json x.aead_nonce x.ciphertext)
                same;
        parsed = p3 ∙ ap ok q1;
        loaded = e5 ∙ ap some (e6 ∙ ap dict q2);
        named = ap suite_name (sym q5) ∙ n3;
        agreed = ap (λ (m : Manifest). is_text suite m.suite) (sym q1) ∙ a3;
        manifest_size = s2;
        wrapped_size = s4;
        nonce_size = ap length (sym q3) ∙ s7;
        ciphertext_size = ground (arith, s8, q4);
      }

  -- `from_bytes` reads a file from bytes when and only when the bytes are laid out as a sealed file:
  -- the magic, the version and the suite, the manifest, the wrapped key and the ciphertext behind
  -- their lengths with a nonce of 24 bytes in between, and nothing after it; the lengths within
  -- their caps, the manifest one that the parser takes and of the suite in the header, the wrapped
  -- key a dictionary.
  pub from_bytes-iff-IsLayout :
      (blob : Bytes) (sf : SealedFile)
      → IsBytes blob
      → (from_bytes loads blob ≡ ok sf) ↔ IsLayout loads blob sf
  from_bytes-iff-IsLayout blob sf b = (from_bytes-IsLayout blob sf b, from_bytes-layout blob sf)

  -- Reading back what `to_bytes` wrote gives the sealed file, where its suite is known and the
  -- manifest's, its parts are within the caps, its nonce has 24 bytes, and the JSON reader reads back
  -- its two texts.
  pub from_bytes-to_bytes :
      (sf : SealedFile) (blob manifest_json wrapped_json suite : Bytes)
      → to_bytes sf ≡ ok blob
      → to_json sf.manifest ≡ ok manifest_json
      → jcs_dumps (dict sf.wrapped_dek) ≡ some wrapped_json
      → from_json loads manifest_json ≡ ok sf.manifest
      → loads wrapped_json ≡ some (dict sf.wrapped_dek)
      → suite_name sf.suite_id ≡ some suite
      → is_text suite sf.manifest.suite ≡ true
      → length manifest_json ≤ max_manifest_bytes
      → length wrapped_json ≤ max_wrapped_dek_bytes
      → length sf.aead_nonce ≡ 24
      → length sf.ciphertext < 2 ^ 32
      → from_bytes loads blob ≡ ok sf
  unfolding to_bytes layout
  from_bytes-to_bytes sf blob manifest_json wrapped_json suite written json dumped parsed loaded
        named agreed manifest_size wrapped_size nonce_size ciphertext_size =
      let (_, suited, h1) = >>=-eq-ok (guard (ltb sf.suite_id 256) value_error) _ written in
      let laid_out : blob
          ≡ layout sf.suite_id manifest_json wrapped_json sf.aead_nonce sf.ciphertext =
        sym (
          ok_inj (
            rw
              (
                json,
                write_field_lem manifest_json (omega (arith, manifest_size)),
                dumped,
                write_field_lem wrapped_json (omega (arith, wrapped_size)),
                write_field_lem sf.ciphertext ciphertext_size,
              )
              at h1)) in
      from_bytes-layout blob sf (record {
        manifest_json = manifest_json;
        wrapped_json = wrapped_json;
        suite = suite;
        laid_out = laid_out;
        parsed = parsed;
        loaded = loaded;
        named = named;
        agreed = agreed;
        manifest_size = manifest_size;
        wrapped_size = wrapped_size;
        nonce_size = nonce_size;
        ciphertext_size = ciphertext_size;
      })
