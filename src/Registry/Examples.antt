-- ===== src/Registry/Examples.antt =====
-- A registry with one file on it: a hostile registration, and instances of the theorems.
use oversight.Prelude.{Bool, true, false, ◌≡◌, refl, Option, none, some, [], ◌∷◌, Bytes, codes}
use oversight.Json.{Json, Fields, str, list, dict, nil, cons, end, field, get}
use oversight.Table.{find_row, text_eq}
use oversight.Registry.{ManifestRow, BeaconRow, Server, Setup, Request, ok, refused}
use oversight.Registry.Access.{xff_client}
use oversight.Registry.Register.{Registration}
use oversight.Registry.Store.{register, Receipt}
use oversight.Registry.Effects.{register-refused}
use oversight.Registry.Anchors.{Anchored, serve_all-Anchored}
use oversight.Registry.Issuers.{
  register_call, beacon_call, issuer_on_file, serve_all, serve_all_issuer,
}

rightmost : xff_client (codes "6.6.6.6, 10.0.0.7 ") ≡ some (codes "10.0.0.7")
unfolding xff_client
rightmost = refl

-- Every signature verifies, for the key that the manifest names.
abbrev pub key_named : Option Json → Option (Bool × Bytes)
key_named (some (str key)) = some (true, key)
key_named _ = some (false, [])

unfoldable pub verify_toy : Fields → Option (Bool × Bytes)
unfolding get
verify_toy manifest = key_named (get (codes "issuer_ed25519_pub") manifest)

abbrev pub setup : Setup
setup = record {
  sha256 = λ x. x;
  decode_replace = λ x. x;
  verify_manifest_signature = verify_toy;
  text_of_value = λ v. [];
  is_loopback = λ host. none;
  operator_token = [];
  dns_event_secret = [];
  trusted_proxy = false;
}

abbrev pub request : Request
request = record {
  headers = λ name. none;
  client_host = some (codes "127.0.0.1");
  monotonic = 5;
  time = 1700000000;
  stamp = codes "2023-11-14T22:13:20Z";
}

abbrev row : ManifestRow
row = record {
  recipient_id = codes "bob";
  issuer_id = codes "alice";
  issuer_ed25519_pub = codes "aa";
  manifest_json = end;
  registered_at = 1;
}

abbrev pub server : Server
server = record {
  database = record {
    manifests = (codes "f1", row) ∷ [];
    beacons = [];
    watermarks = [];
    corpus = [];
    events = [];
  };
  tlog = record { leaves = []; cached_root = none; file = [] };
  bucket = record { unit = 1; rate = 10; burst = 30; max_keys = 100; state = [] };
}

-- Another issuer claims the file.
abbrev hostile : Registration
hostile = record {
  manifest =
      field (codes "file_id") (str (codes "f1"))
        (field (codes "issuer_ed25519_pub") (str (codes "ee")) end);
  beacons = [];
  watermarks = [];
  corpus = none;
}

hostile-refused :
    (register setup hostile request server).1
    ≡ refused 409 (codes "file_id already registered under a different issuer pubkey")
unfolding register verify_toy
hostile-refused = refl

register-refused_example :
    ((register setup hostile request server).0.database ≡ server.database)
    × ((register setup hostile request server).0.tlog ≡ server.tlog)
register-refused_example =
    register-refused setup hostile request server 409
      (codes "file_id already registered under a different issuer pubkey") hostile-refused

on_file : issuer_on_file (codes "f1") server.database ≡ some (codes "aa")
unfolding issuer_on_file find_row
on_file = refl

serve_all_issuer_example :
    issuer_on_file
      (codes "f1")
      (serve_all setup
        (register_call hostile request ∷ beacon_call (codes "t") (codes "ocsp") request ∷ [])
        server).database
    ≡ some (codes "aa")
serve_all_issuer_example =
    serve_all_issuer setup
      (register_call hostile request ∷ beacon_call (codes "t") (codes "ocsp") request ∷ []) server
      (codes "f1") (codes "aa") on_file

serve_all-Anchored_example : Anchored setup (
    serve_all setup
      (beacon_call (codes "t") (codes "ocsp") request
        ∷ register_call hostile request
        ∷ beacon_call (codes "t") (codes "http_img") request
        ∷ [])
      server)
serve_all-Anchored_example =
    serve_all-Anchored setup
      (beacon_call (codes "t") (codes "ocsp") request
        ∷ register_call hostile request
        ∷ beacon_call (codes "t") (codes "http_img") request
        ∷ [])
      server tt

-- A beacon of the first file, and a registration of another file by another issuer that names the
-- same token.
abbrev pub token_row : BeaconRow
token_row = record {
  file_id = codes "f1";
  recipient_id = codes "bob";
  issuer_id = codes "alice";
  kind = codes "ocsp";
  registered_at = 1;
}

abbrev pub beaconed : Server
beaconed = record server {
  database = record server.database { beacons = (codes "t1", token_row) ∷ [] };
}

abbrev pub same_token : Fields
same_token =
    field (codes "token_id") (str (codes "t1")) (field (codes "kind") (str (codes "ocsp")) end)

abbrev pub takeover : Registration
takeover = record {
  manifest = field (codes "file_id") (str (codes "f2")) (
      field (codes "issuer_ed25519_pub") (str (codes "ee"))
        (field (codes "beacons") (list (cons (dict same_token) nil)) end));
  beacons = same_token ∷ [];
  watermarks = [];
  corpus = none;
}

abbrev file_of : Option BeaconRow → Bytes
file_of none = []
file_of (some r) = r.file_id

token_taken_over :
    file_of (find_row (codes "t1") (register setup takeover request beaconed).0.database.beacons)
    ≡ codes "f2"
unfolding register verify_toy find_row
token_taken_over = refl

abbrev pub taken : Receipt
taken = record { file_id = str (codes "f2"); registered_beacons = 1; tlog_index = 0 }

pub takeover_answered : (register setup takeover request beaconed).1 ≡ ok taken
unfolding register verify_toy
takeover_answered = refl
