-- ===== src/Registry/Store/Commit.antt =====
-- What a transaction that is committed found and wrote.
use oversight.Prelude.{
  ℕ, Bool, false, ◌≡◌, refl, sym, ap, ◌∙◌, Option, none, some, [], Bytes, arith, not,
}
use oversight.Json.{Json}
use oversight.Table.{Table, find_row, put_row, text_eq}
use oversight.Registry.{
  ManifestRow, BeaconRow, WatermarkRow, Database, ok, >>=-eq-ok, or_crash-eq-ok, require-eq-ok,
  column, not_null, or_crash,
}
use oversight.Registry.Register.{Registration, Admitted}
use oversight.Registry.Store.{
  store, held_by_other, put_beacons, put_watermarks, claim, existing_row, write_rows,
}

pub record IsStored (a : Admitted) (db after : Database) : Type 0 where
  pub key : Bytes
  pub row : ManifestRow
  pub named : column a.file_id ≡ some (some key)
  pub free : held_by_other a.issuer_pub (find_row key db.manifests) ≡ false
  pub issuer : row.issuer_ed25519_pub ≡ a.issuer_pub
  pub manifests : after.manifests ≡ put_row key row db.manifests
  pub events : after.events ≡ db.events

claim-eq-ok :
    (issuer_pub key : Bytes) (bound : Option Bytes) (t : Table Bytes ManifestRow) {b : Bool}
    → bound ≡ some key
    → claim issuer_pub (existing_row bound t) ≡ ok b
    → held_by_other issuer_pub (find_row key t) ≡ false
unfolding claim existing_row
claim-eq-ok issuer_pub key none t e h = absurd (cc)
claim-eq-ok issuer_pub key (some k) t e h =
    let same : k ≡ key = cc in
    let free = require-eq-ok (not (held_by_other issuer_pub (find_row k t))) _ _ h in
    rw (sym same) (ground (arith, free))

write_rows-eq-ok :
    (text_of_value : Json → Bytes) (req : Registration) (a : Admitted) (now : ℕ)
    (key recipient_id issuer_id : Bytes) (db after : Database)
    → write_rows text_of_value req a now key recipient_id issuer_id db ≡ ok after
    → (row : ManifestRow) × (row.issuer_ed25519_pub ≡ a.issuer_pub)
      × (after.manifests ≡ put_row key row db.manifests)
      × (after.events ≡ db.events)
unfolding write_rows
write_rows-eq-ok text_of_value req a now key recipient_id issuer_id db after h =
    let beacon_row : BeaconRow = record {
      file_id = key;
      recipient_id = recipient_id;
      issuer_id = issuer_id;
      kind = [];
      registered_at = now;
    } in
    let watermark_row : WatermarkRow = record {
      file_id = key;
      recipient_id = recipient_id;
      issuer_id = issuer_id;
      registered_at = now;
    } in
    let (beacons, _, h1) = >>=-eq-ok (put_beacons beacon_row a.signed_beacons db.beacons) _ h in
    let (watermarks, _, h2) =
      >>=-eq-ok (put_watermarks watermark_row a.signed_watermarks db.watermarks) _ h1 in
    (
      record {
        recipient_id = recipient_id;
        issuer_id = issuer_id;
        issuer_ed25519_pub = a.issuer_pub;
        manifest_json = req.manifest;
        registered_at = now;
      },
      refl,
      cc,
      cc,
    )

pub store-IsStored :
    (text_of_value : Json → Bytes) (req : Registration) (a : Admitted) (now : ℕ)
    (db after : Database)
    → store text_of_value req a now db ≡ ok after
    → IsStored a db after
unfolding store
store-IsStored text_of_value req a now db after h =
    let (bound, b, h1) = >>=-eq-ok (or_crash (column a.file_id)) _ h in
    let (granted, free, h2) =
      >>=-eq-ok (claim a.issuer_pub (existing_row bound db.manifests)) _ h1 in
    let (key, k, h3) = >>=-eq-ok (or_crash bound) _ h2 in
    let (recipient_id, _, h4) = >>=-eq-ok (not_null a.recipient_id) _ h3 in
    let (issuer_id, _, h5) = >>=-eq-ok (not_null a.issuer_id) _ h4 in
    let shape : bound ≡ some key = or_crash-eq-ok bound k in
    let claimed = claim-eq-ok a.issuer_pub key bound db.manifests {b = granted} shape free in
    let (row, issuer, manifests, events) =
      write_rows-eq-ok text_of_value req a now key recipient_id issuer_id db after h5 in
    record {
      key = key;
      row = row;
      named = or_crash-eq-ok (column a.file_id) b ∙ ap some shape;
      free = claimed;
      issuer = issuer;
      manifests = manifests;
      events = events;
    }
