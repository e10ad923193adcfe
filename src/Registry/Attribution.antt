-- ===== src/Registry/Attribution.antt =====
-- A beacon that is registered attributes the file.
use oversight.Prelude.{
  ℕ, ◌≡◌, refl, sym, ap, ◌∙◌, Bool, false, some, [], Bytes, beq, codes, get_elem?, take, List,
  Option, String, not,
}
use oversight.Json.{Json, Fields, null, str, get_or, truthy}
use oversight.Table.{Table, find_row, put_row, text_eq}
use oversight.Table.Laws.{find_row-put_row, eqb_refl}
use oversight.Registry.{
  ManifestRow, BeaconRow, Database, Server, Setup, Request, ok, column, not_null, subscript,
  >>=-eq-ok, require, or_crash,
}
use oversight.Registry.Access.{require_operator_auth}
use oversight.Registry.Attribute.{
  AttributionQuery, Engine, Attribution, provided, select_token, owner_of, beacon_owner,
  attribution, manifest_of, events_of, attribute,
}
use oversight.Registry.Register.{
  Registration, Admitted, admit, recipient_of, signed_items, signed_artifacts, canonical_items,
  dicts, same_texts,
}
use oversight.Registry.Receipts.{register-IsReceipt}
use oversight.Registry.Store.{Receipt, register}
use oversight.Registry.Store.Rows.{put_beacons-Holds, store-Writes, reply_inj}

-- The answer to a query names what the manifest of the registration names.
pub record Attributes (req : Registration) (answer : Attribution) : Type 0 where
  pub file : column (get_or (codes "file_id") null req.manifest) ≡ some (some answer.owner.file_id)
  pub to_whom : Json
  pub recipient_id : Bytes
  pub names : recipient_of (get_or (codes "recipient") null req.manifest) ≡ ok to_whom
  pub recipient : not_null to_whom ≡ ok recipient_id
  pub to : answer.owner.recipient_id ≡ some recipient_id
  pub issuer_id : Bytes
  pub issuer :
      not_null (get_or (codes "issuer_id") (str (codes "unknown")) req.manifest) ≡ ok issuer_id
  pub by : answer.owner.issuer_id ≡ some issuer_id
  pub manifest : answer.manifest ≡ some req.manifest

answer_to : Engine → Database → BeaconRow → Attribution
answer_to engine db row = record {
  owner = beacon_owner row;
  manifest = manifest_of (find_row row.file_id db.manifests);
  recent_events = take 50 (engine.newest_first (events_of row.file_id db.events));
}

attribute_token :
    (setup : Setup) (engine : Engine) (q : AttributionQuery) (asked : Request) (server : Server)
    (token : Bytes) (row : BeaconRow) (allowed : Bool)
    → q.token_id ≡ some token
    → beq token [] ≡ false
    → require_operator_auth setup.operator_token asked ≡ ok allowed
    → find_row token server.database.beacons ≡ some row
    → attribute setup engine q asked server ≡ ok (some (answer_to engine server.database row))
unfolding attribute select_token provided owner_of attribution answer_to
attribute_token setup engine q asked server token row allowed asks t grant found =
    let named : provided q.token_id ≡ some token = rw (asks, provided) (rw t refl) in
    rw (grant, named, found) refl

registered_manifest :
    (file_id : Bytes) (row : ManifestRow) (t after : Table Bytes ManifestRow)
    → after ≡ put_row file_id row t
    → manifest_of (find_row file_id after) ≡ some row.manifest_json
unfolding manifest_of
registered_manifest file_id row t after e =
    let found : find_row file_id after ≡ some row =
      ap (find_row file_id) e
      ∙ find_row-put_row file_id file_id row t
      ∙ rw (eqb_refl {K = Bytes} file_id) in
    rw found

-- What `admit` takes from the manifest.
record IsRead (req : Registration) (a : Admitted) : Type 0 where
  file : a.file_id ≡ get_or (codes "file_id") null req.manifest
  recipient : recipient_of (get_or (codes "recipient") null req.manifest) ≡ ok a.recipient_id
  issuer : a.issuer_id ≡ get_or (codes "issuer_id") (str (codes "unknown")) req.manifest
  beacons : signed_items (codes "beacons") req.manifest ≡ ok a.signed_beacons

signed_artifacts-eq-ok :
    (name : Bytes) (asked : List Fields) (manifest : Fields) (message : String) (items : List Json)
    → signed_artifacts name asked manifest message ≡ ok items
    → signed_items name manifest ≡ ok items
unfolding signed_artifacts
signed_artifacts-eq-ok name asked manifest message items h =
    let (signed, e, h1) = >>=-eq-ok (signed_items name manifest) _ h in
    let (texts, _, h2) = >>=-eq-ok (canonical_items (dicts asked)) _ h1 in
    let (stored, _, h3) = >>=-eq-ok (canonical_items signed) _ h2 in
    let (same, _, h4) = >>=-eq-ok (require (same_texts texts stored) 400 message) _ h3 in e ∙ h4

admit-IsRead :
    (verify : Fields → Option (Bool × Bytes)) (req : Registration) (a : Admitted)
    → admit verify req ≡ ok a
    → IsRead req a
unfolding admit
admit-IsRead verify req a h =
    let (to_whom, named, h1) =
      >>=-eq-ok (recipient_of (get_or (codes "recipient") null req.manifest)) _ h in
    let (_, _, h2) =
      >>=-eq-ok (require (truthy (get_or (codes "file_id") null req.manifest)) 400 _) _ h1 in
    let ((sig_ok, issuer_pub), _, h3) = >>=-eq-ok (or_crash (verify req.manifest)) _ h2 in
    let (_, _, h4) = >>=-eq-ok (require sig_ok 400 _) _ h3 in
    let (_, _, h5) = >>=-eq-ok (require (not (beq issuer_pub [])) 400 _) _ h4 in
    let message : String = "request beacons do not match signed manifest" in
    let (beacons, listed, h6) =
      >>=-eq-ok (signed_artifacts (codes "beacons") req.beacons req.manifest message) _ h5 in
    let (_, _, h7) =
      >>=-eq-ok (signed_artifacts (codes "watermarks") req.watermarks req.manifest _) _ h6 in
    let same = reply_inj h7 in
    record {
      file = ap (λ (x : Admitted). x.file_id) (sym same);
      recipient = named ∙ ap (λ (x : Admitted). ok x.recipient_id) same;
      issuer = ap (λ (x : Admitted). x.issuer_id) (sym same);
      beacons =
          signed_artifacts-eq-ok (codes "beacons") req.beacons req.manifest message beacons listed
          ∙ ap (λ (x : Admitted). ok x.signed_beacons) same;
    }

-- After a registration that is answered with a receipt, a query by the token of any of the beacons
-- of its manifest, from an operator and before anything else is registered, whatever else the query
-- gives, is answered with the file, the recipient and the issuer that the manifest names and with
-- the manifest. The token is a text that is not empty.
pub register-Attributes :
    (setup : Setup) (req : Registration) (request : Request) (server : Server) (r : Receipt)
    → (register setup req request server).1 ≡ ok r
    → (signed : List Json) → signed_items (codes "beacons") req.manifest ≡ ok signed
    → (k : ℕ) (b v : Json) (token : Bytes) → get_elem? signed k ≡ some b
    → subscript (codes "token_id") b ≡ ok v
    → column v ≡ some (some token)
    → beq token [] ≡ false
    → (engine : Engine) (q : AttributionQuery) (asked : Request) (allowed : Bool)
    → q.token_id ≡ some token
    → require_operator_auth setup.operator_token asked ≡ ok allowed
    → (answer : Attribution) × (attribute setup engine q asked (register setup req request server).0
        ≡ ok (some answer))
      × Attributes req answer
unfolding answer_to beacon_owner
register-Attributes setup req request server r h signed listed k b v token g s c t engine q asked
      allowed asks grant =
    let receipt = register-IsReceipt setup req request server r h in
    let after = (register setup req request server).0 in
    let a = receipt.admitted in
    let read = admit-IsRead setup.verify_manifest_signature req a receipt.passed in
    let here : get_elem? a.signed_beacons k ≡ some b =
      ap (λ xs. get_elem? xs k) (reply_inj (sym read.beacons ∙ listed)) ∙ g in
    let w =
      store-Writes setup.text_of_value req a request.time server.database after.database
        receipt.stored in
    let row : BeaconRow = record {
      file_id = w.file_id;
      recipient_id = w.recipient_id;
      issuer_id = w.issuer_id;
      kind = [];
      registered_at = request.time;
    } in
    let (kind, found) =
      put_beacons-Holds row a.signed_beacons server.database.beacons after.database.beacons k b v
        token w.beacons here s c in
    (
      answer_to engine after.database (record row { kind = kind }),
      attribute_token setup engine q asked after token (record row { kind = kind }) allowed asks t
          grant found,
      record {
        file = ap column (sym read.file) ∙ w.file;
        to_whom = a.recipient_id;
        names = read.recipient;
        recipient_id = w.recipient_id;
        recipient = w.recipient;
        to = refl;
        issuer_id = w.issuer_id;
        issuer = ap not_null (sym read.issuer) ∙ w.issuer;
        by = refl;
        manifest =
            registered_manifest w.file_id _ server.database.manifests after.database.manifests
              w.manifests;
      },
    )
