-- ===== src/Registry/Attribute.antt =====
-- registry/server.py: `attribute`. SQLite chooses the row where several match, and the order of
-- rows of one time: both are parameters.
use oversight.Prelude.{
  ℕ, ◌&&◌, Option, none, some, List, [], ◌∷◌, ◌++◌, Bytes, beq, codes, take, if◌then◌else◌,
}
use oversight.Json.{Fields}
use oversight.Table.{Table, find_row, text_eq, pair_eq}
use oversight.Registry.{
  BeaconRow, WatermarkRow, ManifestRow, EventRow, Database, Server, Setup, Request, Reply, ok,
  refused, ◌>>=◌,
}
use oversight.Registry.Access.{require_operator_auth}

pub record AttributionQuery : Type 0 where
  pub token_id : Option Bytes
  pub mark_id : Option Bytes
  pub layer : Option Bytes
  pub perceptual_hash : Option Bytes

-- The columns of the row that is found. A left join has no recipient where no beacon is.
pub record Owner : Type 0 where
  pub file_id : Bytes
  pub recipient_id : Option Bytes
  pub issuer_id : Option Bytes

-- What the engine chooses: one of the rows that match, and the rows by falling time.
pub record Engine : Type 0 where
  pub fetchone : List Owner → Option Owner
  pub newest_first : List EventRow → List EventRow

pub record Attribution : Type 0 where
  pub owner : Owner
  pub manifest : Option Fields
  pub recent_events : List EventRow

-- A text that is given and not empty.
unfoldable pub provided : Option Bytes → Option Bytes
provided none = none
provided (some text) = if beq text [] then none else some text

unfoldable pub beacon_owner : BeaconRow → Owner
beacon_owner row = record {
  file_id = row.file_id;
  recipient_id = some row.recipient_id;
  issuer_id = some row.issuer_id;
}

unfoldable pub watermark_owner : WatermarkRow → Owner
watermark_owner row = record {
  file_id = row.file_id;
  recipient_id = some row.recipient_id;
  issuer_id = some row.issuer_id;
}

unfoldable pub marks_of : Bytes → Table (Bytes × Bytes) WatermarkRow → List Owner
unfolding watermark_owner
marks_of mark_id [] = []
marks_of mark_id ((key, row) ∷ t) =
    let rest = marks_of mark_id t in if beq key.0 mark_id then watermark_owner row ∷ rest else rest

unfoldable pub beacons_of : Bytes → Table Bytes BeaconRow → List Owner
unfolding beacon_owner
beacons_of file_id [] = []
beacons_of file_id ((_, row) ∷ t) =
    let rest = beacons_of file_id t in
    if beq row.file_id file_id then beacon_owner row ∷ rest else rest

-- A row of `corpus` with the beacons of its file, or without one.
unfoldable pub joined : Bytes → List Owner → List Owner
joined file_id [] = record { file_id = file_id; recipient_id = none; issuer_id = none } ∷ []
joined file_id (owner ∷ owners) = owner ∷ owners

unfoldable pub corpus_of :
    Bytes → Table Bytes BeaconRow → Table (Bytes × Bytes × Bytes) ℕ → List Owner
unfolding joined beacons_of
corpus_of hash_value beacons [] = []
corpus_of hash_value beacons ((key, _) ∷ t) =
    let rest = corpus_of hash_value beacons t in
    if beq key.1 (codes "perceptual") && beq key.2 hash_value
    then joined key.0 (beacons_of key.0 beacons) ++ rest
    else rest

unfoldable pub owner_of : {A : Type 0} → (A → Owner) → Option A → Option Owner
owner_of f none = none
owner_of f (some row) = some (f row)

-- The tests of `attribute`, in their order.
unfoldable pub select_hash : Engine → Option Bytes → Database → Reply (Option Owner)
unfolding corpus_of
select_hash engine none db = refused 400 (codes "provide token_id, mark_id, or perceptual_hash")
select_hash engine (some hash_value) db =
    ok (engine.fetchone (corpus_of hash_value db.beacons db.corpus))

unfoldable pub select_mark :
    Engine → Option Bytes → Option Bytes → Option Bytes → Database → Reply (Option Owner)
unfolding select_hash marks_of owner_of find_row watermark_owner
select_mark engine none layer perceptual_hash db = select_hash engine perceptual_hash db
select_mark engine (some mark_id) none perceptual_hash db =
    ok (engine.fetchone (marks_of mark_id db.watermarks))
select_mark engine (some mark_id) (some layer) perceptual_hash db =
    ok (owner_of watermark_owner (find_row (mark_id, layer) db.watermarks))

unfoldable pub select_token :
    Engine → AttributionQuery → Option Bytes → Database → Reply (Option Owner)
unfolding select_mark provided owner_of find_row beacon_owner
select_token engine q none db =
    select_mark engine (provided q.mark_id) (provided q.layer) (provided q.perceptual_hash) db
select_token engine q (some token_id) db = ok (owner_of beacon_owner (find_row token_id db.beacons))

unfoldable pub events_of : Bytes → List EventRow → List EventRow
events_of file_id [] = []
events_of file_id (event ∷ events) =
    let rest = events_of file_id events in
    elim event.file_id [ none ↦ rest | some f ↦ if beq f file_id then event ∷ rest else rest ]

unfoldable pub manifest_of : Option ManifestRow → Option Fields
manifest_of none = none
manifest_of (some row) = some row.manifest_json

-- `none` is the answer `{"found": False}`.
unfoldable pub attribution : Engine → Database → Option Owner → Option Attribution
unfolding manifest_of events_of find_row
attribution engine db none = none
attribution engine db (some owner) = some (record {
  owner = owner;
  manifest = manifest_of (find_row owner.file_id db.manifests);
  recent_events = take 50 (engine.newest_first (events_of owner.file_id db.events));
})

unfoldable pub attribute :
    Setup → Engine → AttributionQuery → Request → Server → Reply (Option Attribution)
unfolding require_operator_auth select_token provided attribution
attribute setup engine q request server = do
  allowed ← require_operator_auth setup.operator_token request
  row ← select_token engine q (provided q.token_id) server.database
  ok (attribution engine server.database row)
