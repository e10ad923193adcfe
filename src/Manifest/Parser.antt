-- ===== src/Manifest/Parser.antt =====
-- oversight_core/manifest.py: `Manifest.new` and `Manifest.from_json`.
use oversight.Prelude.{
  Bool, true, false, ◌&&◌, ◌||◌, Option, none, some, List, [], ◌∷◌, Bytes, beq, codes, pos,
  if◌then◌else◌,
}
use oversight.Json.{
  Json, Items, Fields, null, int, str, list, dict, nil, cons, end, field, get, get_or, truthy,
}
use oversight.Result.{value_error, Result, ok, raised, ◌>>=◌, guard, or_raise}
use oversight.Manifest.{Recipient, WatermarkRef, Manifest}

contains : Bytes → List Bytes → Bool
contains k [] = false
contains k (name ∷ names) = beq k name || contains k names

-- `set(d) - allowed` is empty.
known : List Bytes → Fields → Bool
unfolding contains
known names end = true
known names (field k v fs) = contains k names && known names fs

abbrev field_names : List Bytes
field_names =
    codes "file_id"
    ∷ codes "issued_at"
    ∷ codes "version"
    ∷ codes "suite"
    ∷ codes "original_filename"
    ∷ codes "content_hash"
    ∷ codes "canonical_content_hash"
    ∷ codes "content_type"
    ∷ codes "size_bytes"
    ∷ codes "issuer_id"
    ∷ codes "issuer_ed25519_pub"
    ∷ codes "recipient"
    ∷ codes "watermarks"
    ∷ codes "beacons"
    ∷ codes "policy"
    ∷ codes "l3_policy"
    ∷ codes "signature_ed25519"
    ∷ codes "signature_ml_dsa"
    ∷ []

abbrev recipient_names : List Bytes
recipient_names =
    codes "recipient_id" ∷ codes "x25519_pub" ∷ codes "ed25519_pub" ∷ codes "p256_pub" ∷ []

abbrev watermark_names : List Bytes
watermark_names = codes "layer" ∷ codes "mark_id" ∷ []

-- `cls(**d)` without a field that has no default is a `TypeError`, which is raised as a
-- `ValueError`.
required : Bytes → Fields → Result Json
unfolding get
required name fs = or_raise (get name fs) value_error

parse_recipient_dict : Json → Result (Option Recipient)
unfolding known required get_or
parse_recipient_dict (dict fs) = do
  strict ← guard (known recipient_names fs) value_error
  recipient_id ← required (codes "recipient_id") fs
  x25519_pub ← required (codes "x25519_pub") fs
  ok (
      some (record {
        recipient_id = recipient_id;
        x25519_pub = x25519_pub;
        ed25519_pub = get_or (codes "ed25519_pub") null fs;
        p256_pub = get_or (codes "p256_pub") null fs;
      }))
parse_recipient_dict v = raised value_error

parse_recipient : Json → Result (Option Recipient)
unfolding parse_recipient_dict truthy
parse_recipient rec = if truthy rec then parse_recipient_dict rec else ok none

parse_watermark : Json → Result WatermarkRef
unfolding known required
parse_watermark (dict fs) = do
  strict ← guard (known watermark_names fs) value_error
  layer ← required (codes "layer") fs
  mark_id ← required (codes "mark_id") fs
  ok (record { layer = layer; mark_id = mark_id })
parse_watermark v = raised value_error

parse_watermark_items : Items → Result (List WatermarkRef)
unfolding parse_watermark
parse_watermark_items nil = ok []
parse_watermark_items (cons v vs) = do
  w ← parse_watermark v
  ws ← parse_watermark_items vs
  ok (w ∷ ws)

parse_watermarks : Json → Result (List WatermarkRef)
unfolding parse_watermark_items
parse_watermarks (list vs) = parse_watermark_items vs
parse_watermarks v = raised value_error

-- The manifest that a dictionary describes.
parse_dict : Json → Result Manifest
unfolding known required parse_recipient parse_watermarks get_or
parse_dict (dict fs) = do
  strict ← guard (known field_names fs) value_error
  file_id ← required (codes "file_id") fs
  issued_at ← required (codes "issued_at") fs
  recipient ← parse_recipient (get_or (codes "recipient") null fs)
  watermarks ← parse_watermarks (get_or (codes "watermarks") (list nil) fs)
  ok (record {
    file_id = file_id;
    issued_at = issued_at;
    version = get_or (codes "version") (str (codes "OVERSIGHT-v1")) fs;
    suite = get_or (codes "suite") (str (codes "OSGT-CLASSIC-v1")) fs;
    original_filename = get_or (codes "original_filename") (str []) fs;
    content_hash = get_or (codes "content_hash") (str []) fs;
    canonical_content_hash = get_or (codes "canonical_content_hash") (str []) fs;
    content_type = get_or (codes "content_type") (str (codes "application/octet-stream")) fs;
    size_bytes = get_or (codes "size_bytes") (int (pos 0)) fs;
    issuer_id = get_or (codes "issuer_id") (str []) fs;
    issuer_ed25519_pub = get_or (codes "issuer_ed25519_pub") (str []) fs;
    recipient = recipient;
    watermarks = watermarks;
    beacons = get_or (codes "beacons") (list nil) fs;
    policy = get_or (codes "policy") (dict end) fs;
    l3_policy = get_or (codes "l3_policy") (dict end) fs;
    signature_ed25519 = get_or (codes "signature_ed25519") (str []) fs;
    signature_ml_dsa = get_or (codes "signature_ml_dsa") (str []) fs;
  })
parse_dict v = raised value_error

unfoldable pub from_json : (Bytes → Option Json) → Bytes → Result Manifest
unfolding parse_dict
from_json loads bytes = do v ← or_raise (loads bytes) value_error; parse_dict v

-- `if value: policy[name] = value`, with the fields that follow
optional : Bytes → Option Json → Fields → Fields
unfolding truthy
optional name none rest = rest
optional name (some v) rest = if truthy v then field name v rest else rest

-- `Manifest.new`; the identifier and the time are drawn by the call.
unfoldable pub new :
    Json
    → Json
    → Json
    → Json
    → Json
    → Json
    → Json
    → Recipient
    → Json
    → Json
    → Option Json
    → Option Json
    → Json
    → Manifest
unfolding optional
new file_id issued_at original_filename content_hash size_bytes issuer_id issuer_ed25519_pub_hex
      recipient registry_url content_type not_after max_opens jurisdiction =
    record {
      file_id = file_id;
      issued_at = issued_at;
      version = str (codes "OVERSIGHT-v1");
      suite = str (codes "OSGT-CLASSIC-v1");
      original_filename = original_filename;
      content_hash = content_hash;
      canonical_content_hash = content_hash;
      content_type = content_type;
      size_bytes = size_bytes;
      issuer_id = issuer_id;
      issuer_ed25519_pub = issuer_ed25519_pub_hex;
      recipient = some recipient;
      watermarks = [];
      beacons = list nil;
      policy = dict (
          field (codes "registry_url") registry_url (
            field (codes "jurisdiction") jurisdiction (
              optional (codes "not_after") not_after
                (optional (codes "max_opens") max_opens end))));
      l3_policy = dict end;
      signature_ed25519 = str [];
      signature_ml_dsa = str [];
    }
