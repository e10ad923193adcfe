-- ===== src/Rekor/Envelope.antt =====
-- What `sign_dsse` of oversight_core/rekor.py makes, `verify_dsse` accepts.
use oversight.Prelude.{
  ◌≡◌, refl, sym, ap, ◌∙◌, true, some, Bytes, IsBytes, codes, length, ◌==◌, ==_iff,
}
use oversight.Json.{Json, Fields, str, dict, nil, cons, end, field, get}
use oversight.Jcs.{jcs_dumps}
use oversight.Base64.{b64encode, b64decode}
use oversight.Base64.RoundTrip.{b64decode-b64encode}
use oversight.Crypto.{Primitives}
use oversight.Manifest.Signing.{SignsFor}
use oversight.Result.{
  value_error, type_error, ok, or_raise, >>=-eq-ok, or_raise-eq-ok, ok_inj, >>=-ok, passed-ok,
  guard-true,
}
use oversight.Rekor.{
  DsseEnvelope, dsse_payload_type, pae, signature_bytes, accepts, any_signature, sign_dsse,
  signed_envelope, verify_decoded, verify_dsse,
}

module _ (p : Primitives) where
  -- The envelope that `sign_dsse` returned: the payload, and the signature of its encoding.
  pub sign_dsse-eq-ok :
      (statement : Json) (priv keyid : Bytes) (e : DsseEnvelope)
      → sign_dsse p statement priv keyid ≡ ok e
      → (payload : Bytes) × (message : Bytes) × (sig : Bytes) × (jcs_dumps statement ≡ some payload)
        × (pae dsse_payload_type payload ≡ ok message)
        × (p.ed25519_sign priv message ≡ some sig)
        × (record {
          payload_b64 = b64encode payload;
          payload_type = dsse_payload_type;
          signatures =
              cons
                (dict (
                  field
                    (codes "sig")
                    (str (b64encode sig))
                    (field (codes "keyid") (str keyid) end)))
                nil;
        }
            ≡ e)
  unfolding sign_dsse signed_envelope
  sign_dsse-eq-ok statement priv keyid e h =
      let (payload, dumped, h1) = >>=-eq-ok (or_raise (jcs_dumps statement) type_error) _ h in
      let (message, encoded, h2) =
        >>=-eq-ok (pae dsse_payload_type payload) (signed_envelope p priv keyid payload) h1 in
      let (sig, signed, h3) = >>=-eq-ok (or_raise (p.ed25519_sign priv message) value_error) _ h2 in
      (
        payload,
        message,
        sig,
        or_raise-eq-ok (jcs_dumps statement) type_error dumped,
        encoded,
        or_raise-eq-ok (p.ed25519_sign priv message) value_error signed,
        ok_inj h3,
      )

  -- An envelope whose one signature is good.
  verify_one :
      (e : DsseEnvelope) (pub_key payload message text sig : Bytes) (fs : Fields)
      → length pub_key ≡ 32
      → b64decode e.payload_b64 ≡ some payload
      → pae e.payload_type payload ≡ ok message
      → e.signatures ≡ cons (dict fs) nil
      → get (codes "sig") fs ≡ some (str text)
      → b64decode text ≡ some sig
      → p.ed25519_verify pub_key sig message ≡ true
      → verify_dsse p e pub_key ≡ ok true
  unfolding verify_dsse verify_decoded any_signature signature_bytes accepts
  verify_one e pub_key payload message text sig fs sized decoded encoded one named decoded_sig
        good =
      let keyed =
        guard-true (length pub_key == 32) value_error ((==_iff (length pub_key) 32).1 sized) in
      let read : signature_bytes (dict fs) ≡ ok (some sig) =
        rw (named, decoded_sig, signature_bytes) refl in
      let any : any_signature p (cons (dict fs) nil) message pub_key ≡ ok true =
        >>=-ok (signature_bytes (dict fs)) _ read (rw (good, any_signature) refl) in
      ap (λ o. verify_decoded p o e pub_key) decoded
      ∙ >>=-ok _ _ encoded
          (passed-ok _ keyed (ap (λ sigs. any_signature p sigs message pub_key) one ∙ any))

  -- The envelope that `sign_dsse` returned verifies under the public key of the private key that
  -- signed, of 32 bytes.
  pub verify_dsse-sign_dsse :
      (statement : Json) (priv pub_key keyid : Bytes) (e : DsseEnvelope)
      → SignsFor p priv pub_key
      → length pub_key ≡ 32
      → ((payload : Bytes) → jcs_dumps statement ≡ some payload → IsBytes payload)
      → sign_dsse p statement priv keyid ≡ ok e
      → verify_dsse p e pub_key ≡ ok true
  unfolding get
  verify_dsse-sign_dsse statement priv pub_key keyid e keys sized octets h =
      let (payload, message, sig, dumped, encoded, signed, shape) =
        sign_dsse-eq-ok statement priv keyid e h in
      let (sig_octets, _, verified) = keys.verifies message sig signed in
      let fs = field (codes "sig") (str (b64encode sig)) (field (codes "keyid") (str keyid) end) in
      verify_one e pub_key payload message (b64encode sig) sig fs sized
        (ap (λ (x : DsseEnvelope). b64decode x.payload_b64) (sym shape)
          ∙ b64decode-b64encode payload (octets payload dumped))
        (ap (λ (x : DsseEnvelope). pae x.payload_type payload) (sym shape) ∙ encoded)
        (ap (λ (x : DsseEnvelope). x.signatures) (sym shape)) refl
        (b64decode-b64encode sig sig_octets) verified
