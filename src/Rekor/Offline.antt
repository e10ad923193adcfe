-- ===== src/Rekor/Offline.antt =====
-- What the offline check of oversight_core/rekor.py accepts.
use oversight.Prelude.{
  ◌≡◌, ◌↔◌, refl, sym, ap, ◌∙◌, Bool, true, false, inl, inr, Bool-cases, Option, none, some, Bytes,
  IsBytes, beq, beq_self, codes, length,
}
use oversight.Json.Laws.{is_text-eq-true}
use oversight.Json.{
  is_text, Json, Fields, null, boolean, int, float, str, list, dict, end, field, get, get_or,
}
use oversight.Jcs.{jcs_dumps}
use oversight.Base64.{b64decode}
use oversight.Base64.RoundTrip.{b64decode-b64encode}
use oversight.Crypto.{Primitives}
use oversight.Manifest.Signing.{SignsFor}
use oversight.Result.{ok, >>=-eq-ok, >>=-ok, ok_inj}
use oversight.Rekor.{
  OversightRegistrationPredicate, build_statement, DsseEnvelope, sign_dsse, verify_dsse,
  subject_digest, has_proof, accepted, other_digest, no_proof, entry_answer, digest_answer,
  envelope_payload_statement, check_statement, verify_inclusion_offline,
}
use oversight.Rekor.Envelope.{sign_dsse-eq-ok, verify_dsse-sign_dsse}

-- The entry of the log is a dictionary with one of the keys of a proof.
abbrev pub HasEntry : Json → Type 0
HasEntry tle = (fs : Fields) × (tle ≡ dict fs) × (has_proof fs ≡ true)

entry_answer-accepted : (tle : Json) → entry_answer tle ≡ accepted → HasEntry tle
unfolding entry_answer has_proof
entry_answer-accepted (dict end) h = absurd (cc)
entry_answer-accepted (dict (field k v fs)) h = elim (Bool-cases (has_proof (field k v fs))) [
  | inl t ↦ (field k v fs, refl, t)
  | inr f ↦ let no : no_proof ≡ accepted = rw (f, entry_answer) at h in absurd (cc)
]
entry_answer-accepted null h = absurd (cc)
entry_answer-accepted (boolean b) h = absurd (cc)
entry_answer-accepted (int n) h = absurd (cc)
entry_answer-accepted (float s) h = absurd (cc)
entry_answer-accepted (str s) h = absurd (cc)
entry_answer-accepted (list vs) h = absurd (cc)

entry_answer-has_proof : (fs : Fields) → has_proof fs ≡ true → entry_answer (dict fs) ≡ accepted
unfolding entry_answer has_proof
entry_answer-has_proof end h = absurd (cc)
entry_answer-has_proof (field k v fs) h = rw (h, entry_answer) refl

digest_answer-accepted :
    (o : Option Json) (expected : Bytes) (tle : Json)
    → digest_answer o expected tle ≡ accepted
    → (o ≡ some (str expected)) × HasEntry tle
unfolding digest_answer
digest_answer-accepted none expected tle h = absurd (cc)
digest_answer-accepted (some subject) expected tle h =
    elim (Bool-cases (is_text expected subject)) [
      | inl t ↦ (
        ap some (is_text-eq-true expected subject t),
        entry_answer-accepted tle (rw (t, digest_answer) at h),
      )
      | inr f ↦ let no : other_digest ≡ accepted = rw (f, digest_answer) at h in absurd (cc)
    ]

-- Of a digest that was found.
digest_answer-str :
    (digest expected : Bytes) (tle : Json)
    → digest_answer (some (str digest)) expected tle
      ≡ elim (beq digest expected) [ true ↦ entry_answer tle | false ↦ other_digest ]
unfolding digest_answer is_text
digest_answer-str digest expected tle = elim (Bool-cases (beq digest expected)) [
  | inl t ↦ rw t refl
  | inr f ↦ rw f refl
]

abbrev pub entry_of : Fields → Json
entry_of bundle = get_or (codes "transparency_log_entry") null bundle

module _ (p : Primitives) (loads : Bytes → Option Json) where
  -- The offline check accepts a bundle when and only when the envelope verifies under the issuer's
  -- key, its payload is a statement whose first subject has the digest that is expected, and the
  -- bundle has an entry of the log with one of the keys of a proof.
  pub verify_inclusion_offline-accepted :
      (bundle : Fields) (e : DsseEnvelope) (pub_key expected : Bytes)
      → (verify_inclusion_offline p loads bundle e pub_key expected ≡ ok accepted) ↔ (
          (verify_dsse p e pub_key ≡ ok true)
          × ((statement : Json) × (envelope_payload_statement p loads e ≡ ok statement)
              × (subject_digest statement ≡ some (str expected)))
          × HasEntry (entry_of bundle))
  unfolding verify_inclusion_offline check_statement
  verify_inclusion_offline-accepted bundle e pub_key expected = (
    λ h.
        let (signed, verified, h1) = >>=-eq-ok (verify_dsse p e pub_key) _ h in
        accepts_signed signed verified h1,
    λ (verified, (statement, parsed, digest), (fs, shape, proof)).
        >>=-ok (verify_dsse p e pub_key) _ verified (
          >>=-ok (envelope_payload_statement p loads e) _ parsed (
            ap ok (
              ap (λ o. digest_answer o expected (entry_of bundle)) digest
              ∙ digest_answer-str expected expected (entry_of bundle)
              ∙ rw (beq_self expected) (ap entry_answer shape ∙ entry_answer-has_proof fs proof)))),
  )
    where
      accepts_signed :
          (signed : Bool)
          → verify_dsse p e pub_key ≡ ok signed
          → check_statement p loads signed e expected (entry_of bundle) ≡ ok accepted
          → (verify_dsse p e pub_key ≡ ok true)
            × ((statement : Json) × (envelope_payload_statement p loads e ≡ ok statement)
                × (subject_digest statement ≡ some (str expected)))
            × HasEntry (entry_of bundle)
      accepts_signed false verified h = absurd (cc)
      accepts_signed true verified h =
          let (statement, parsed, h1) = >>=-eq-ok (envelope_payload_statement p loads e) _ h in
          let (digest, entry) =
            digest_answer-accepted (subject_digest statement) expected (entry_of bundle)
              (ok_inj h1) in
          (verified, (statement, parsed, digest), entry)

  -- The check of the envelope that an issuer signed for a registration, with a key of 32 bytes: with
  -- the digest of the registration it answers by the entry of the log, and with another digest it
  -- says so. The payload is bytes, and the JSON reader reads back the digest of the statement.
  pub verify_inclusion_offline-sign_dsse :
      (mark_id digest expected priv pub_key keyid : Bytes)
      (predicate : OversightRegistrationPredicate) (bundle : Fields) (e : DsseEnvelope)
      → SignsFor p priv pub_key
      → length pub_key ≡ 32
      → ((payload : Bytes)
          → jcs_dumps (build_statement mark_id digest predicate) ≡ some payload
          → IsBytes payload
            × ((v : Json) × (loads payload ≡ some v)
                × (subject_digest v ≡ subject_digest (build_statement mark_id digest predicate))))
      → sign_dsse p (build_statement mark_id digest predicate) priv keyid ≡ ok e
      → verify_inclusion_offline p loads bundle e pub_key expected
        ≡ ok (elim (beq digest expected) [
          | true ↦ entry_answer (entry_of bundle)
          | false ↦ other_digest
        ])
  unfolding verify_inclusion_offline check_statement envelope_payload_statement build_statement
      subject_digest get
  verify_inclusion_offline-sign_dsse mark_id digest expected priv pub_key keyid predicate bundle e
        keys sized reads h =
      let statement = build_statement mark_id digest predicate in
      let (payload, message, sig, dumped, encoded, signed, shape) =
        sign_dsse-eq-ok p statement priv keyid e h in
      let (octets, (v, loaded, digests)) = reads payload dumped in
      let verified =
        verify_dsse-sign_dsse p statement priv pub_key keyid e keys sized
          (λ other d. (reads other d).0) h in
      let decoded : b64decode e.payload_b64 ≡ some payload =
        ap (λ (x : DsseEnvelope). b64decode x.payload_b64) (sym shape)
        ∙ b64decode-b64encode payload octets in
      let parsed : envelope_payload_statement p loads e ≡ ok v = rw (decoded, loaded) refl in
      let found : subject_digest v ≡ some (str digest) = digests in
      >>=-ok (verify_dsse p e pub_key) _ verified (
        >>=-ok (envelope_payload_statement p loads e) _ parsed (
          ap ok (
            ap (λ o. digest_answer o expected (entry_of bundle)) found
            ∙ digest_answer-str digest expected (entry_of bundle))))
