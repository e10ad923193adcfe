-- ===== src/Registry/Store.antt =====
-- registry/server.py: `register`. `str()` of a corpus value is a parameter, as is the check of the
-- signature. The receipt is without the answer of Rekor, to which nothing is sent unless enabled.
pub mod Commit
pub mod Rows
use oversight.Prelude.{
  ℕ, Bool, true, false, Option, none, some, List, [], ◌∷◌, Bytes, beq, beq_iff, ◌≡◌, ◌↔◌, ◌&&◌,
  arith, codes, length, pos, not, if◌then◌else◌,
}
use oversight.Json.{Json, Fields, int, str, dict, end, field, truthy}
use oversight.Table.{Eq, Table, find_row, put_row, text_eq, pair_eq}
use oversight.Tlog.{TransparencyLog, append}
use oversight.Registry.{
  ManifestRow, BeaconRow, WatermarkRow, Database, Server, Setup, Request, Reply, ok, refused,
  crashed, ◌>>=◌, or_crash, gate, require, not_null, column, subscript,
}
use oversight.Registry.Access.{require_operator_auth, rate_limit}
use oversight.Registry.Register.{Registration, Admitted, admit}

pub record Receipt : Type 0 where
  pub file_id : Json
  pub registered_beacons : ℕ
  pub tlog_index : ℕ

-- The loop over the signed beacons. SQLite keeps a row under a NULL key, which no query by token
-- finds; such a row is left out here.
unfoldable pub put_beacons :
    BeaconRow → List Json → Table Bytes BeaconRow → Reply (Table Bytes BeaconRow)
unfolding put_row not_null column subscript
put_beacons row [] t = ok t
put_beacons row (b ∷ bs) t = do
  token ← subscript (codes "token_id") b
  kind_value ← subscript (codes "kind") b
  token_id ← or_crash (column token)
  kind ← not_null kind_value
  put_beacons row bs
      (elim token_id [ none ↦ t | some key ↦ put_row key (record row { kind = kind }) t ])

put_watermarks :
    WatermarkRow
    → List Json
    → Table (Bytes × Bytes) WatermarkRow
    → Reply (Table (Bytes × Bytes) WatermarkRow)
unfolding put_row not_null subscript
put_watermarks row [] t = ok t
put_watermarks row (w ∷ ws) t = do
  mark_value ← subscript (codes "mark_id") w
  layer_value ← subscript (codes "layer") w
  mark_id ← not_null mark_value
  layer ← not_null layer_value
  put_watermarks row ws (put_row (mark_id, layer) row t)

pub corpus_eq_iff :
    (a b : Bytes × Bytes × Bytes) → ((beq a.0 b.0 && (beq a.1 b.1 && beq a.2 b.2)) ≡ true) ↔ (a ≡ b)
corpus_eq_iff (a, b, c) (d, e, f) = (
  λ h. ground (arith, beq_iff a d, beq_iff b e, beq_iff c f, h),
  λ h. ground (arith, beq_iff a d, beq_iff b e, beq_iff c f, h),
)

-- A file and a hash of it.
instance abbrev pub corpus_eq : Eq (Bytes × Bytes × Bytes)
corpus_eq = record {
  eqb = λ a b. beq a.0 b.0 && (beq a.1 b.1 && beq a.2 b.2);
  eqb_iff = corpus_eq_iff;
}

put_corpus :
    (Json → Bytes)
    → Bytes
    → ℕ
    → Fields
    → Table (Bytes × Bytes × Bytes) ℕ
    → Table (Bytes × Bytes × Bytes) ℕ
unfolding put_row truthy
put_corpus text_of_value file_id now end t = t
put_corpus text_of_value file_id now (field hash_kind hash_value fs) t =
    put_corpus text_of_value file_id now fs (
      if truthy hash_value then put_row (file_id, hash_kind, text_of_value hash_value) now t else t)

-- Another issuer holds the file.
unfoldable pub held_by_other : Bytes → Option ManifestRow → Bool
held_by_other issuer_pub none = false
held_by_other issuer_pub (some row) = not (beq row.issuer_ed25519_pub issuer_pub)

-- The row of the file, if its identifier is bound to a text.
existing_row : Option Bytes → Table Bytes ManifestRow → Option ManifestRow
unfolding find_row
existing_row none t = none
existing_row (some key) t = find_row key t

claim : Bytes → Option ManifestRow → Reply Bool
unfolding held_by_other
claim issuer_pub existing =
    require (not (held_by_other issuer_pub existing)) 409
      "file_id already registered under a different issuer pubkey"

module _ (text_of_value : Json → Bytes) where
  -- The statements that write, for a file's identifier and for the columns of its rows.
  write_rows : Registration → Admitted → ℕ → Bytes → Bytes → Bytes → Database → Reply Database
  unfolding put_row put_beacons put_watermarks put_corpus
  write_rows req a now file_id recipient_id issuer_id db = do
    let beacon_row : BeaconRow = record {
      file_id = file_id;
      recipient_id = recipient_id;
      issuer_id = issuer_id;
      kind = [];
      registered_at = now;
    }
    let watermark_row : WatermarkRow = record {
      file_id = file_id;
      recipient_id = recipient_id;
      issuer_id = issuer_id;
      registered_at = now;
    }
    let manifest_row : ManifestRow = record {
      recipient_id = recipient_id;
      issuer_id = issuer_id;
      issuer_ed25519_pub = a.issuer_pub;
      manifest_json = req.manifest;
      registered_at = now;
    }
    beacons ← put_beacons beacon_row a.signed_beacons db.beacons
    watermarks ← put_watermarks watermark_row a.signed_watermarks db.watermarks
    ok (record {
      manifests = put_row file_id manifest_row db.manifests;
      beacons = beacons;
      watermarks = watermarks;
      corpus = elim req.corpus [
        | none ↦ db.corpus
        | some fs ↦ put_corpus text_of_value file_id now fs db.corpus
      ];
      events = db.events;
    })

  -- The transaction. Where it raises, the connection is closed without a commit.
  unfoldable pub store : Registration → Admitted → ℕ → Database → Reply Database
  unfolding column not_null existing_row claim write_rows
  store req a now db = do
    bound ← or_crash (column a.file_id)
    free ← claim a.issuer_pub (existing_row bound db.manifests)
    file_id ← or_crash bound
    recipient_id ← not_null a.recipient_id
    issuer_id ← not_null a.issuer_id
    write_rows req a now file_id recipient_id issuer_id db

-- The leaf of a registration.
unfoldable pub register_leaf : Admitted → Bytes → Json
register_leaf a stamp = dict (
    field (codes "event") (str (codes "register")) (
      field (codes "file_id") a.file_id (
        field (codes "recipient_id") a.recipient_id (
          field (codes "issuer_id") a.issuer_id (
            field (codes "issuer_pub") (str a.issuer_pub) (
              field (codes "n_beacons") (int (pos (length a.signed_beacons))) (
                field (codes "n_watermarks") (int (pos (length a.signed_watermarks)))
                  (field (codes "timestamp") (str stamp) end))))))))

-- The registry appends after the commit, so a failure there leaves the database changed.
unfoldable pub log_registration : Setup → Request → Admitted → Server → Server × Reply Receipt
unfolding append register_leaf
log_registration setup request a server =
    elim (append setup.sha256 setup.decode_replace (register_leaf a request.stamp) server.tlog) [
      | none ↦ (server, crashed)
      | some (tlog, index) ↦ (
        record server { tlog = tlog },
        ok (record {
          file_id = a.file_id;
          registered_beacons = length a.signed_beacons;
          tlog_index = index;
        }),
      )
    ]

-- The checks and the transaction, once the limiter has answered.
unfoldable pub checked :
    Setup → Registration → Request → Server → Reply Bool → Reply (Admitted × Database)
unfolding admit store
checked setup req request server granted = do
  under_limit ← granted
  a ← admit setup.verify_manifest_signature req
  db ← store setup.text_of_value req a request.time server.database
  ok (a, db)

unfoldable pub proceed :
    Setup → Request → Server → Reply (Admitted × Database) → Server × Reply Receipt
unfolding log_registration
proceed setup request server (ok (a, db)) =
    log_registration setup request a (record server { database = db })
proceed setup request server (refused status message) = (server, refused status message)
proceed setup request server crashed = (server, crashed)

unfoldable pub register : Setup → Registration → Request → Server → Server × Reply Receipt
unfolding require_operator_auth rate_limit checked proceed gate
register setup req request server =
    let (charged, granted) = rate_limit setup.trusted_proxy server request in
    gate server (require_operator_auth setup.operator_token request)
      (proceed setup request charged (checked setup req request charged granted))
