-- ===== src/Registry/Store/Rows.antt =====
-- The rows that a transaction writes for a file, its beacons and its marks.
use oversight.Prelude.{
  ℕ, zero, suc, ◌≡◌, sym, ap, ◌∙◌, Option, none, some, List, [], ◌∷◌, Bytes, beq, get_elem?, codes,
  Bool-cases, inl, inr,
}
use oversight.Json.{Json}
use oversight.Table.{Table, find_row, put_row, text_eq}
use oversight.Table.Laws.{find_row-put_row, eqb_refl}
use oversight.Result.{some_inj}
use oversight.Registry.{
  BeaconRow, WatermarkRow, Database, Reply, ok, >>=-eq-ok, or_crash-eq-ok, column, not_null,
  or_crash, subscript,
}
use oversight.Registry.Register.{Registration, Admitted}
use oversight.Registry.Store.{store, put_beacons, put_watermarks, claim, existing_row, write_rows}

value_or : {A : Type 0} → A → Reply A → A
value_or d (ok a) = a
value_or d (Reply.refused status message) = d
value_or d Reply.crashed = d

pub reply_inj : {A : Type 0} {a b : A} → Reply.ok a ≡ ok b → a ≡ b
unfolding value_or
reply_inj {A} {a} {b} h = ap (value_or a) h

-- The table has the row under the key, of some kind.
abbrev pub Holds : BeaconRow → Bytes → Table Bytes BeaconRow → Type 0
Holds row key t = (kind : Bytes) × (find_row key t ≡ some (record row { kind = kind }))

put_row-Holds :
    (row : BeaconRow) (key other kind : Bytes) (t : Table Bytes BeaconRow)
    → Holds row key t
    → Holds row key (put_row other (record row { kind = kind }) t)
put_row-Holds row key other kind t (k, h) = elim (Bool-cases (beq other key)) [
  | inl e ↦ (kind, find_row-put_row other key (record row { kind = kind }) t ∙ rw e)
  | inr e ↦ (k, find_row-put_row other key (record row { kind = kind }) t ∙ rw e h)
]

-- The table after one item.
next : BeaconRow → Option Bytes → Bytes → Table Bytes BeaconRow → Table Bytes BeaconRow
next row none kind t = t
next row (some key) kind t = put_row key (record row { kind = kind }) t

next-Holds :
    (row : BeaconRow) (key kind : Bytes) (token : Option Bytes) (t : Table Bytes BeaconRow)
    → Holds row key t
    → Holds row key (next row token kind t)
unfolding next
next-Holds row key kind none t h = h
next-Holds row key kind (some other) t h = put_row-Holds row key other kind t h

next-same :
    (row : BeaconRow) (key kind : Bytes) (t : Table Bytes BeaconRow)
    → Holds row key (next row (some key) kind t)
unfolding next
next-same row key kind t =
    (kind, find_row-put_row key key (record row { kind = kind }) t ∙ rw (eqb_refl {K = Bytes} key))

next_lem :
    (row : BeaconRow) (token : Option Bytes) (kind : Bytes) (bs : List Json)
    (t after : Table Bytes BeaconRow)
    → put_beacons row bs
        (elim token [ none ↦ t | some key ↦ put_row key (record row { kind = kind }) t ])
      ≡ ok after
    → put_beacons row bs (next row token kind t) ≡ ok after
unfolding next
next_lem row none kind bs t after h = h
next_lem row (some key) kind bs t after h = h

put_beacons-step :
    (row : BeaconRow) (b : Json) (bs : List Json) (t after : Table Bytes BeaconRow)
    → put_beacons row (b ∷ bs) t ≡ ok after
    → (v : Json) × (token : Option Bytes) × (kind : Bytes) × (subscript (codes "token_id") b ≡ ok v)
      × (column v ≡ some token)
      × (put_beacons row bs (next row token kind t) ≡ ok after)
unfolding put_beacons
put_beacons-step row b bs t after h =
    let (v, s, h1) = >>=-eq-ok (subscript (codes "token_id") b) _ h in
    let (kv, _, h2) = >>=-eq-ok (subscript (codes "kind") b) _ h1 in
    let (token, c, h3) = >>=-eq-ok (or_crash (column v)) _ h2 in
    let (kind, _, h4) = >>=-eq-ok (not_null kv) _ h3 in
    (v, token, kind, s, or_crash-eq-ok (column v) c, next_lem row token kind bs t after h4)

put_beacons-keeps :
    (row : BeaconRow) (bs : List Json) (t after : Table Bytes BeaconRow) (key : Bytes)
    → put_beacons row bs t ≡ ok after
    → Holds row key t
    → Holds row key after
put_beacons-keeps row [] t after key e h =
    unfold put_beacons in (h.0, (let same : t ≡ after = reply_inj e in rw (sym same) h.1))
put_beacons-keeps row (b ∷ bs) t after key e h =
    let (v, token, kind, _, _, rest) = put_beacons-step row b bs t after e in
    put_beacons-keeps row bs (next row token kind t) after key rest
      (next-Holds row key kind token t h)

pub put_beacons-Holds :
    (row : BeaconRow) (bs : List Json) (t after : Table Bytes BeaconRow) (k : ℕ) (b v : Json)
    (key : Bytes)
    → put_beacons row bs t ≡ ok after
    → get_elem? bs k ≡ some b
    → subscript (codes "token_id") b ≡ ok v
    → column v ≡ some (some key)
    → Holds row key after
put_beacons-Holds row [] t after k b v key e g s c = absurd (cc)
put_beacons-Holds row (x ∷ bs) t after zero b v key e g s c =
    let (v', token, kind, s', c', rest) = put_beacons-step row x bs t after e in
    let same : x ≡ b = some_inj g in
    let value : v' ≡ v = reply_inj (sym s' ∙ ap (subscript (codes "token_id")) same ∙ s) in
    let named : token ≡ some key = some_inj (sym c' ∙ ap column value ∙ c) in
    put_beacons-keeps row bs (next row token kind t) after key rest
      (rw named (next-same row key kind t))
put_beacons-Holds row (x ∷ bs) t after (suc k) b v key e g s c =
    let (v', token, kind, _, _, rest) = put_beacons-step row x bs t after e in
    put_beacons-Holds row bs (next row token kind t) after k b v key rest g s c

-- What `store` writes for the file and its beacons.
pub record Writes (req : Registration) (a : Admitted) (now : ℕ) (db after : Database) : Type 0 where
  pub file_id : Bytes
  pub recipient_id : Bytes
  pub issuer_id : Bytes
  pub file : column a.file_id ≡ some (some file_id)
  pub recipient : not_null a.recipient_id ≡ ok recipient_id
  pub issuer : not_null a.issuer_id ≡ ok issuer_id
  pub beacons :
      put_beacons
        (record {
          file_id = file_id;
          recipient_id = recipient_id;
          issuer_id = issuer_id;
          kind = [];
          registered_at = now;
        })
        a.signed_beacons
        db.beacons
      ≡ ok after.beacons
  pub manifests :
      after.manifests
      ≡ put_row file_id
          (record {
            recipient_id = recipient_id;
            issuer_id = issuer_id;
            issuer_ed25519_pub = a.issuer_pub;
            manifest_json = req.manifest;
            registered_at = now;
          })
          db.manifests

pub store-Writes :
    (text_of_value : Json → Bytes) (req : Registration) (a : Admitted) (now : ℕ)
    (db after : Database)
    → store text_of_value req a now db ≡ ok after
    → Writes req a now db after
unfolding store write_rows
store-Writes text_of_value req a now db after h =
    let (bound, b, h1) = >>=-eq-ok (or_crash (column a.file_id)) _ h in
    let (granted, _, h2) = >>=-eq-ok (claim a.issuer_pub (existing_row bound db.manifests)) _ h1 in
    let (key, k, h3) = >>=-eq-ok (or_crash bound) _ h2 in
    let (recipient_id, r, h4) = >>=-eq-ok (not_null a.recipient_id) _ h3 in
    let (issuer_id, i, h5) = >>=-eq-ok (not_null a.issuer_id) _ h4 in
    let beacon_row : BeaconRow = record {
      file_id = key;
      recipient_id = recipient_id;
      issuer_id = issuer_id;
      kind = [];
      registered_at = now;
    } in
    let watermark_row : WatermarkRow = record {
      file_id = key;
      recipient_id = recipient_id;
      issuer_id = issuer_id;
      registered_at = now;
    } in
    let (beacons, put, h6) = >>=-eq-ok (put_beacons beacon_row a.signed_beacons db.beacons) _ h5 in
    let (watermarks, _, h7) =
      >>=-eq-ok (put_watermarks watermark_row a.signed_watermarks db.watermarks) _ h6 in
    let written = reply_inj h7 in
    record {
      file_id = key;
      recipient_id = recipient_id;
      issuer_id = issuer_id;
      file = or_crash-eq-ok (column a.file_id) b ∙ ap some (or_crash-eq-ok bound k);
      recipient = r;
      issuer = i;
      beacons = put ∙ ap (λ (d : Database). ok d.beacons) written;
      manifests = sym (ap (λ (d : Database). d.manifests) written);
    }
