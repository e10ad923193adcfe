-- ===== src/Rekor/Examples.antt =====
-- A registration, signed over the toy primitives, and its bundle.
use oversight.Prelude.{
  ◌≡◌, ◌↔◌, refl, sym, ◌∙◌, true, false, Option, none, some, [], Bytes, IsBytes, arith, beq, codes,
  replicate,
}
use oversight.Json.{Json, Fields, null, str, dict, nil, cons, end, field}
use oversight.Jcs.{jcs_dumps}
use oversight.Base64.{b64encode}
use oversight.Crypto.Examples.{toy}
use oversight.Manifest.Examples.{key-SignsFor}
use oversight.Result.{Result, ok, some_inj}
use oversight.Rekor.{
  OversightRegistrationPredicate, build_statement, DsseEnvelope, sign_dsse, verify_dsse, pae,
  subject_digest, entry_answer, accepted, other_digest, envelope_payload_statement,
  verify_inclusion_offline,
}
use oversight.Rekor.Encoding.{pae_inj}
use oversight.Rekor.Offline.{
  entry_of, HasEntry, verify_inclusion_offline-accepted, verify_inclusion_offline-sign_dsse,
}

abbrev message : Result Bytes
message = pae (codes "a") (codes "1 b")

abbrev message_bytes : Bytes
message_bytes = codes "DSSEv1 1 a 3 1 b"

encoded : pae (codes "a") (codes "1 b") ≡ ok message_bytes
unfolding pae
encoded = refl

pae_inj_example : (codes "a" ≡ codes "a") × (codes "1 b" ≡ codes "1 b")
pae_inj_example =
    pae_inj (codes "a") (codes "1 b") (codes "a") (codes "1 b") message_bytes encoded encoded

abbrev key : Bytes
key = replicate 32 3

abbrev registration : OversightRegistrationPredicate
registration = record {
  file_id = str (codes "f1");
  issuer_pubkey_ed25519 = str (codes "03");
  recipient_id = str (codes "bob");
  recipient_pubkey_sha256 = str (codes "00");
  suite = str (codes "OSGT-CLASSIC-v1");
  registered_at = str (codes "2026");
  rfc3161_tsa = null;
  rfc3161_token_b64 = null;
  rfc3161_chain_b64 = null;
  policy = dict end;
  watermarks = dict end;
}

abbrev statement : Json
statement = build_statement (codes "aa") (codes "d1") registration

abbrev loads : Bytes → Option Json
loads text = some statement

abbrev text_of : Option Bytes → Bytes
text_of none = []
text_of (some bs) = bs

abbrev payload_text : Bytes
payload_text = text_of (jcs_dumps statement)

abbrev made : DsseEnvelope
made = record {
  payload_b64 = b64encode payload_text;
  payload_type = codes "application/vnd.in-toto+json";
  signatures =
      cons
        (dict (
          field (codes "sig") (str (b64encode (replicate 64 1)))
            (field (codes "keyid") (str []) end)))
        nil;
}

dumps : jcs_dumps statement ≡ some payload_text
unfolding jcs_dumps build_statement
dumps = refl

octets : IsBytes payload_text
unfolding jcs_dumps build_statement
octets = omega arith

signs : sign_dsse toy statement key [] ≡ ok made
unfolding sign_dsse build_statement
signs = refl

reads :
    (payload : Bytes)
    → jcs_dumps statement ≡ some payload
    → IsBytes payload
      × ((v : Json) × (loads payload ≡ some v) × (subject_digest v ≡ subject_digest statement))
reads payload h =
    let same : payload ≡ payload_text = some_inj (sym h ∙ dumps) in
    rw same (octets, (statement, refl, refl))

abbrev bundle : Fields
bundle =
    field (codes "transparency_log_entry") (dict (field (codes "inclusionProof") (dict end) end))
      end

verify_inclusion_offline-sign_dsse_example :
    verify_inclusion_offline toy loads bundle made key (codes "d2")
    ≡ ok (elim (beq (codes "d1") (codes "d2")) [
      | true ↦ entry_answer (entry_of bundle)
      | false ↦ other_digest
    ])
verify_inclusion_offline-sign_dsse_example =
    verify_inclusion_offline-sign_dsse toy loads (codes "aa") (codes "d1") (codes "d2") key key []
      registration bundle made key-SignsFor refl reads signs

verify_inclusion_offline-accepted_example :
    (verify_inclusion_offline toy loads bundle made key (codes "d1") ≡ ok accepted) ↔ (
      (verify_dsse toy made key ≡ ok true)
      × ((v : Json) × (envelope_payload_statement toy loads made ≡ ok v)
          × (subject_digest v ≡ some (str (codes "d1"))))
      × HasEntry (entry_of bundle))
verify_inclusion_offline-accepted_example =
    verify_inclusion_offline-accepted toy loads bundle made key (codes "d1")

accepts : verify_inclusion_offline toy loads bundle made key (codes "d1") ≡ ok accepted
unfolding verify_inclusion_offline sign_dsse b64encode jcs_dumps build_statement
accepts = refl
