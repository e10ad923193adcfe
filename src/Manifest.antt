-- ===== src/Manifest.antt =====
-- oversight_core/manifest.py: the manifest, its canonical bytes, its signature and its strict parser.
-- The data classes do not check types, so a field holds a JSON value. `loads` is the answer of
-- `json.loads(data.decode("utf-8"))`, with `none` for the two exceptions that are caught. A text with
-- a lone surrogate has no canonical bytes; its `UnicodeEncodeError` is kept as a `type_error` here.
pub mod Signing
pub mod Parser
pub mod Examples
use oversight.Prelude.{
  ℕ, zero, Bool, true, false, ◌&&◌, ◌||◌, not, Option, none, some, List, [], ◌∷◌, Bytes, beq, codes,
  pos, if◌then◌else◌, ◌==◌,
}
use oversight.Json.{
  Json, Items, Fields, null, boolean, int, float, str, list, dict, nil, cons, end, field, get,
  get_or, truthy,
}
use oversight.Jcs.{jcs_dumps}
use oversight.Hex.{hex, fromhex}
use oversight.Crypto.{Primitives, sign_manifest, verify_manifest}
use oversight.Result.{
  Exception, value_error, type_error, Result, ok, raised, ◌>>=◌, guard, or_raise,
}

pub record Recipient : Type 0 where
  pub recipient_id : Json
  pub x25519_pub : Json
  pub ed25519_pub : Json
  pub p256_pub : Json

pub record WatermarkRef : Type 0 where
  pub layer : Json
  pub mark_id : Json

pub record Manifest : Type 0 where
  pub file_id : Json
  pub issued_at : Json
  pub version : Json
  pub suite : Json
  pub original_filename : Json
  pub content_hash : Json
  pub canonical_content_hash : Json
  pub content_type : Json
  pub size_bytes : Json
  pub issuer_id : Json
  pub issuer_ed25519_pub : Json
  pub recipient : Option Recipient
  pub watermarks : List WatermarkRef
  pub beacons : Json
  pub policy : Json
  pub l3_policy : Json
  pub signature_ed25519 : Json
  pub signature_ml_dsa : Json

recipient_dict : Option Recipient → Json
recipient_dict none = null
recipient_dict (some r) = dict (
    field (codes "recipient_id") r.recipient_id (
      field (codes "x25519_pub") r.x25519_pub
        (field (codes "ed25519_pub") r.ed25519_pub (field (codes "p256_pub") r.p256_pub end))))

watermark_dicts : List WatermarkRef → Items
watermark_dicts [] = nil
watermark_dicts (w ∷ ws) =
    cons (dict (field (codes "layer") w.layer (field (codes "mark_id") w.mark_id end)))
      (watermark_dicts ws)

-- `asdict`, with the signature fields emptied unless they are included.
unfoldable pub to_dict : Bool → Manifest → Json
unfolding recipient_dict watermark_dicts
to_dict include_signatures m = dict (
    field (codes "file_id") m.file_id (
      field (codes "issued_at") m.issued_at (
        field (codes "version") m.version (
          field (codes "suite") m.suite (
            field (codes "original_filename") m.original_filename (
              field (codes "content_hash") m.content_hash (
                field (codes "canonical_content_hash") m.canonical_content_hash (
                  field (codes "content_type") m.content_type (
                    field (codes "size_bytes") m.size_bytes (
                      field (codes "issuer_id") m.issuer_id (
                        field (codes "issuer_ed25519_pub") m.issuer_ed25519_pub (
                          field (codes "recipient") (recipient_dict m.recipient) (
                            field (codes "watermarks") (list (watermark_dicts m.watermarks)) (
                              field (codes "beacons") m.beacons (
                                field (codes "policy") m.policy (
                                  field (codes "l3_policy") m.l3_policy (
                                    field (codes "signature_ed25519")
                                      (if include_signatures then m.signature_ed25519 else str [])
                                      (field (codes "signature_ml_dsa")
                                        (if include_signatures then m.signature_ml_dsa else str [])
                                        end))))))))))))))))))

is_none : Json → Bool
is_none null = true
is_none v = false

-- `_strip_none`: a null in a dictionary is dropped with its key, one in a list is kept.
unfoldable mutual
  unfolding is_none

  pub strip_none : Json → Json
  strip_none (dict fs) = dict (strip_fields fs)
  strip_none (list vs) = list (strip_items vs)
  strip_none v = v

  strip_items : Items → Items
  strip_items nil = nil
  strip_items (cons v vs) = cons (strip_none v) (strip_items vs)

  strip_fields : Fields → Fields
  strip_fields end = end
  strip_fields (field k v fs) =
      let rest = strip_fields fs in
      let kept = strip_none v in if is_none v then rest else field k kept rest

unfoldable pub canonical_bytes : Manifest → Result Bytes
unfolding to_dict strip_none jcs_dumps
canonical_bytes m = or_raise (jcs_dumps (strip_none (to_dict false m))) type_error

unfoldable pub to_json : Manifest → Result Bytes
unfolding to_dict strip_none jcs_dumps
to_json m = or_raise (jcs_dumps (strip_none (to_dict true m))) type_error

-- `bytes.fromhex(v)`
unfoldable pub hex_bytes : Json → Result Bytes
unfolding fromhex
hex_bytes (str text) = or_raise (fromhex text) value_error
hex_bytes v = raised type_error

module _ (p : Primitives) where
  unfoldable pub sign : Bytes → Manifest → Result Manifest
  unfolding canonical_bytes sign_manifest hex
  sign issuer_ed25519_priv m = do
    bytes ← canonical_bytes m
    sig ← sign_manifest p bytes issuer_ed25519_priv
    ok (record m { signature_ed25519 = str (hex sig) })

  unfoldable pub verify : Manifest → Result Bool
  unfolding canonical_bytes hex_bytes verify_manifest truthy
  verify m =
      if truthy m.signature_ed25519 && truthy m.issuer_ed25519_pub
      then (do
        bytes ← canonical_bytes m
        signature ← hex_bytes m.signature_ed25519
        issuer ← hex_bytes m.issuer_ed25519_pub
        ok (verify_manifest p bytes signature issuer))
      else ok false
