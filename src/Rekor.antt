-- ===== src/Rekor.antt =====
-- oversight_core/rekor.py: the statement of a registration, its DSSE envelope, and the offline check of
-- a bundle. `loads` is `json.loads`, with `none` for its exception. The calls of the network are left
-- out.
pub mod Encoding
pub mod Envelope
pub mod Offline
pub mod Examples
use oversight.Prelude.{
  ℕ, Bool, true, false, ◌&&◌, ◌||◌, not, Option, none, some, List, [], ◌∷◌, ◌++◌, Bytes, beq, codes,
  pos, ltb, length, ◌==◌, if◌then◌else◌,
}
use oversight.Json.{
  is_text, Json, Items, Fields, null, boolean, int, float, str, list, dict, nil, cons, end, field,
  get, get_or, truthy,
}
use oversight.Jcs.{jcs_dumps, decimal}
use oversight.Hex.{hex, fromhex}
use oversight.Base64.{b64encode, b64decode}
use oversight.Crypto.{Primitives}
use oversight.Result.{
  Exception, value_error, type_error, key_error, Result, ok, raised, ◌>>=◌, guard, or_raise,
}

-- The fields of type `dict` are JSON values; the others are texts, of which three may be missing.
pub record OversightRegistrationPredicate : Type 0 where
  pub file_id : Json
  pub issuer_pubkey_ed25519 : Json
  pub recipient_id : Json
  pub recipient_pubkey_sha256 : Json
  pub suite : Json
  pub registered_at : Json
  pub rfc3161_tsa : Json
  pub rfc3161_token_b64 : Json
  pub rfc3161_chain_b64 : Json
  pub policy : Json
  pub watermarks : Json

-- `if v: d[name] = v`
given : Bytes → Json → Fields → Fields
unfolding truthy
given name v rest = if truthy v then field name v rest else rest

unfoldable pub predicate_dict : OversightRegistrationPredicate → Json
unfolding given
predicate_dict r = dict (
    field (codes "predicate_version") (int (pos 1)) (
      field (codes "file_id") r.file_id (
        field (codes "issuer_pubkey_ed25519") r.issuer_pubkey_ed25519 (
          field (codes "recipient_id") r.recipient_id (
            field (codes "recipient_pubkey_sha256") r.recipient_pubkey_sha256 (
              field (codes "suite") r.suite (
                field (codes "registered_at") r.registered_at (
                  field (codes "policy") r.policy (
                    field (codes "watermarks") r.watermarks (
                      given (codes "rfc3161_tsa") r.rfc3161_tsa (
                        given (codes "rfc3161_token_b64") r.rfc3161_token_b64
                          (given (codes "rfc3161_chain_b64") r.rfc3161_chain_b64 end))))))))))))

abbrev pub dsse_payload_type : Bytes
dsse_payload_type = codes "application/vnd.in-toto+json"

unfoldable pub build_statement : Bytes → Bytes → OversightRegistrationPredicate → Json
unfolding predicate_dict
build_statement mark_id_hex content_hash_sha256_hex predicate = dict (
    field (codes "_type") (str (codes "https://in-toto.io/Statement/v1")) (
      field (codes "subject")
        (list (
          cons
            (dict (
              field (codes "name") (str (codes "mark:" ++ mark_id_hex)) (
                field (codes "digest")
                  (dict (field (codes "sha256") (str content_hash_sha256_hex) end)) end)))
            nil))
        (field (codes "predicateType")
          (str (
            codes
              "https://github.com/oversight-protocol/oversight/blob/v0.5.0/docs/predicates/registration-v1.md"))
          (field (codes "predicate") (predicate_dict predicate) end))))

pub record DsseEnvelope : Type 0 where
  pub payload_b64 : Bytes
  pub payload_type : Bytes
  pub signatures : Items

unfoldable pub envelope_json : DsseEnvelope → Result Bytes
unfolding jcs_dumps
envelope_json e =
    or_raise
      (jcs_dumps (
        dict (
          field (codes "payload") (str e.payload_b64) (
            field (codes "payloadType") (str e.payload_type)
              (field (codes "signatures") (list e.signatures) end)))))
      type_error

is_ascii : Bytes → Bool
is_ascii [] = true
is_ascii (c ∷ s) = ltb c 128 && is_ascii s

-- `_pae`; the error of the codec is a `ValueError`.
unfoldable pub pae : Bytes → Bytes → Result Bytes
unfolding is_ascii decimal
pae payload_type payload = do
  encodable ← guard (is_ascii payload_type) value_error
  ok (
      codes "DSSEv1 "
      ++ (decimal (pos (length payload_type))
          ++ 32 ∷ (payload_type ++ 32 ∷ (decimal (pos (length payload)) ++ 32 ∷ payload))))

-- `base64.b64decode(sig_obj["sig"])`: of a missing key and of a bad text the exceptions are caught.
signature_bytes : Json → Result (Option Bytes)
unfolding get b64decode
signature_bytes (dict fs) = elim (get (codes "sig") fs) [
  | none ↦ ok none
  | some (str text) ↦ ok (b64decode text)
  | some _ ↦ raised type_error
]
signature_bytes v = raised type_error

module _ (p : Primitives) where
  -- The envelope with the signature of `message`.
  signed_envelope : Bytes → Bytes → Bytes → Bytes → Result DsseEnvelope
  unfolding b64encode
  signed_envelope issuer_ed25519_priv keyid payload message = do
    sig ← or_raise (p.ed25519_sign issuer_ed25519_priv message) value_error
    ok (record {
      payload_b64 = b64encode payload;
      payload_type = dsse_payload_type;
      signatures =
          cons
            (dict
              (field (codes "sig") (str (b64encode sig)) (field (codes "keyid") (str keyid) end)))
            nil;
    })

  unfoldable pub sign_dsse : Json → Bytes → Bytes → Result DsseEnvelope
  unfolding jcs_dumps pae signed_envelope
  sign_dsse statement issuer_ed25519_priv keyid = do
    payload ← or_raise (jcs_dumps statement) type_error
    message ← pae dsse_payload_type payload
    signed_envelope issuer_ed25519_priv keyid payload message

  -- One signature is enough.
  accepts : Option Bytes → Bytes → Bytes → Bool
  accepts none message issuer_ed25519_pub = false
  accepts (some sig) message issuer_ed25519_pub = p.ed25519_verify issuer_ed25519_pub sig message

  any_signature : Items → Bytes → Bytes → Result Bool
  unfolding signature_bytes accepts
  any_signature nil message issuer_ed25519_pub = ok false
  any_signature (cons sig_obj sigs) message issuer_ed25519_pub = signature_bytes sig_obj >>= λ sig.
      elim (accepts sig message issuer_ed25519_pub) [
        | true ↦ ok true
        | false ↦ any_signature sigs message issuer_ed25519_pub
      ]

  -- `Ed25519PublicKey.from_public_bytes` takes 32 bytes.
  verify_decoded : Option Bytes → DsseEnvelope → Bytes → Result Bool
  unfolding pae any_signature
  verify_decoded none e issuer_ed25519_pub = ok false
  verify_decoded (some payload) e issuer_ed25519_pub = do
    message ← pae e.payload_type payload
    keyed ← guard (length issuer_ed25519_pub == 32) value_error
    any_signature e.signatures message issuer_ed25519_pub

  unfoldable pub verify_dsse : DsseEnvelope → Bytes → Result Bool
  unfolding b64decode verify_decoded
  verify_dsse e issuer_ed25519_pub = verify_decoded (b64decode e.payload_b64) e issuer_ed25519_pub

-- `statement["subject"][0]["digest"]["sha256"]`, `none` where an exception is caught.
item : Bytes → Option Json → Option Json
unfolding get
item name (some (dict fs)) = get name fs
item name v = none

first_item : Option Json → Option Json
first_item (some (list (cons v vs))) = some v
first_item v = none

unfoldable pub subject_digest : Json → Option Json
unfolding item first_item
subject_digest statement =
    item (codes "sha256")
      (item (codes "digest") (first_item (item (codes "subject") (some statement))))

has_key : Bytes → Fields → Bool
unfolding get
has_key name fs = elim (get name fs) [ none ↦ false | some v ↦ true ]

-- A dictionary with one of the three keys; an empty one is told apart in the answer.
unfoldable pub has_proof : Fields → Bool
unfolding has_key
has_proof tle =
    has_key (codes "inclusionProof") tle
    || (has_key (codes "inclusion_proof") tle || has_key (codes "logEntry") tle)

-- The answers of the offline check, with its reasons.
pub data Answer : Type 0 where
  accepted : Answer
  bad_signature : Answer
  no_digest : Answer
  other_digest : Answer
  no_entry : Answer
  no_proof : Answer

-- What is in the bundle of the log's entry.
unfoldable pub entry_answer : Json → Answer
unfolding has_proof
entry_answer (dict end) = no_entry
entry_answer (dict (field k v fs)) = if has_proof (field k v fs) then accepted else no_proof
entry_answer v = no_entry

unfoldable pub digest_answer : Option Json → Bytes → Json → Answer
unfolding is_text entry_answer
digest_answer none expected tle = no_digest
digest_answer (some subject) expected tle =
    if is_text expected subject then entry_answer tle else other_digest

module _ (p : Primitives) (loads : Bytes → Option Json) where
  unfoldable pub envelope_payload_statement : DsseEnvelope → Result Json
  unfolding b64decode
  envelope_payload_statement e = do
    payload ← or_raise (b64decode e.payload_b64) value_error
    or_raise (loads payload) value_error

  -- What follows the check of the signature.
  check_statement : Bool → DsseEnvelope → Bytes → Json → Result Answer
  unfolding envelope_payload_statement subject_digest digest_answer
  check_statement false e expected tle = ok bad_signature
  check_statement true e expected tle = do
    statement ← envelope_payload_statement e
    ok (digest_answer (subject_digest statement) expected tle)

  -- The three checks, in the order of the source.
  unfoldable pub verify_inclusion_offline : Fields → DsseEnvelope → Bytes → Bytes → Result Answer
  unfolding verify_dsse check_statement get_or
  verify_inclusion_offline bundle_rekor_field e issuer_ed25519_pub expected = do
    signed ← verify_dsse p e issuer_ed25519_pub
    check_statement signed e expected
        (get_or (codes "transparency_log_entry") null bundle_rekor_field)
