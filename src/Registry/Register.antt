-- ===== src/Registry/Register.antt =====
-- registry/server.py: the checks of `register` before it opens the database. The check of the manifest's signature is a parameter: `none` is an
-- exception, else it answers with the verdict and the key claimed.
use oversight.Prelude.{
  Bool, true, false, not, ◌&&◌, Option, List, [], ◌∷◌, Bytes, beq, codes, if◌then◌else◌, String,
}
use oversight.Json.{
  Json, Items, Fields, null, str, list, dict, nil, cons, end, field, get_or, truthy,
}
use oversight.Jcs.{serialize, before}
use oversight.Table.{text_eq, pair_eq}
use oversight.Registry.{Reply, ok, crashed, ◌>>=◌, or_crash, require}

pub record Registration : Type 0 where
  pub manifest : Fields
  pub beacons : List Fields
  pub watermarks : List Fields
  pub corpus : Option Fields

-- What the request is checked to be, before the database is opened.
pub record Admitted : Type 0 where
  pub file_id : Json
  pub recipient_id : Json
  pub issuer_id : Json
  pub issuer_pub : Bytes
  pub signed_beacons : List Json
  pub signed_watermarks : List Json

items_of : Items → List Json
items_of nil = []
items_of (cons v vs) = v ∷ items_of vs

keys_of : Fields → List Json
keys_of end = []
keys_of (field k v fs) = str k ∷ keys_of fs

chars_of : Bytes → List Json
chars_of [] = []
chars_of (c ∷ s) = str (c ∷ []) ∷ chars_of s

-- `for item in value`
iterate : Json → Reply (List Json)
unfolding items_of keys_of chars_of
iterate (list vs) = ok (items_of vs)
iterate (dict fs) = ok (keys_of fs)
iterate (str s) = ok (chars_of s)
iterate _ = crashed

insert_text : Bytes → List Bytes → List Bytes
unfolding before
insert_text text [] = text ∷ []
insert_text text (other ∷ texts) =
    let rest = insert_text text texts in
    if before text other then text ∷ other ∷ texts else other ∷ rest

-- `_canonical_items`: the text that is encoded and decoded again is taken as it is.
unfoldable pub canonical_items : List Json → Reply (List Bytes)
unfolding serialize insert_text
canonical_items [] = ok []
canonical_items (v ∷ vs) = do
  text ← or_crash (serialize v)
  texts ← canonical_items vs
  ok (insert_text text texts)

pub same_texts : List Bytes → List Bytes → Bool
same_texts [] [] = true
same_texts [] (t ∷ ts) = false
same_texts (s ∷ ss) [] = false
same_texts (s ∷ ss) (t ∷ ts) = beq s t && same_texts ss ts

pub dicts : List Fields → List Json
dicts [] = []
dicts (fs ∷ rest) = dict fs ∷ dicts rest

-- `manifest_dict.get(name) or []`
unfoldable pub signed_items : Bytes → Fields → Reply (List Json)
unfolding iterate get_or truthy
signed_items name manifest =
    let value = get_or name null manifest in if truthy value then iterate value else ok []

-- The signed list under `name`, if the request's list has the same canonical items.
unfoldable pub signed_artifacts : Bytes → List Fields → Fields → String → Reply (List Json)
unfolding signed_items canonical_items same_texts dicts
signed_artifacts name requested manifest message = do
  signed ← signed_items name manifest
  asked ← canonical_items (dicts requested)
  stored ← canonical_items signed
  same ← require (same_texts asked stored) 400 message
  ok signed

-- `recipient.get("recipient_id", "unknown")`, of `m.get("recipient") or {}`
unfoldable pub recipient_of : Json → Reply Json
unfolding get_or truthy
recipient_of (dict fs) = ok (get_or (codes "recipient_id") (str (codes "unknown")) fs)
recipient_of v = if truthy v then crashed else ok (str (codes "unknown"))

module _ (verify_manifest_signature : Fields → Option (Bool × Bytes)) where
  unfoldable pub admit : Registration → Reply Admitted
  unfolding get_or truthy recipient_of signed_artifacts
  admit req = do
    recipient_id ← recipient_of (get_or (codes "recipient") null req.manifest)
    let issuer_id = get_or (codes "issuer_id") (str (codes "unknown")) req.manifest
    let file_id = get_or (codes "file_id") null req.manifest
    named ← require (truthy file_id) 400 "manifest missing file_id"
    (sig_ok, issuer_pub) ← or_crash (verify_manifest_signature req.manifest)
    signed ← require sig_ok 400 "manifest signature invalid"
    keyed ← require (not (beq issuer_pub [])) 400 "manifest missing issuer_ed25519_pub"
    signed_beacons ←
        signed_artifacts (codes "beacons") req.beacons req.manifest
          "request beacons do not match signed manifest"
    signed_watermarks ←
        signed_artifacts (codes "watermarks") req.watermarks req.manifest
          "request watermarks do not match signed manifest"
    ok (record {
      file_id = file_id;
      recipient_id = recipient_id;
      issuer_id = issuer_id;
      issuer_pub = issuer_pub;
      signed_beacons = signed_beacons;
      signed_watermarks = signed_watermarks;
    })
