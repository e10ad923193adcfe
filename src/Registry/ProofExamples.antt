-- ===== src/Registry/ProofExamples.antt =====
-- One beacon request to an empty registry, and the proof of its row.
use oversight.Prelude.{
  ◌≡◌, refl, false, Option, none, some, List, [], ◌∷◌, Bytes, IsBytes, codes, arith,
}
use oversight.Jcs.{jcs_dumps}
use oversight.Tlog.{TransparencyLog}
use oversight.Tlog.Recovery.{IsFaithful, appended, appended-IsFaithful}
use oversight.Tlog.Examples.{toy, toy-IsDigest, toy-IsBytes, nothing_yet, nothing_yet-IsFaithful}
use oversight.Registry.{Server, Setup, Request}
use oversight.Registry.Events.{beacon, sighting, event_leaf}
use oversight.Registry.Issuers.{Call, beacon_call, serve_all}
use oversight.Registry.Anchors.{Anchored, serve_all-Anchored}
use oversight.Registry.Reads.{EventProof, tlog_proofs_for_events}
use oversight.Registry.Proofs.{AllProved, tlog_proofs_for_events-AllProved}

abbrev setup : Setup
setup = record {
  sha256 = toy;
  decode_replace = λ x. x;
  verify_manifest_signature = λ m. none;
  text_of_value = λ v. [];
  is_loopback = λ host. none;
  operator_token = [];
  dns_event_secret = [];
  trusted_proxy = false;
}

abbrev request : Request
request = record {
  headers = λ name. none;
  client_host = none;
  monotonic = 5;
  time = 17;
  stamp = codes "2023";
}

abbrev server : Server
server = record {
  database = record { manifests = []; beacons = []; watermarks = []; corpus = []; events = [] };
  tlog = nothing_yet;
  bucket = record { unit = 1; rate = 10; burst = 30; max_keys = 100; state = [] };
}

abbrev calls : List Call
calls = beacon_call (codes "t") (codes "ocsp") request ∷ []

abbrev text_of : Option Bytes → Bytes
text_of none = []
text_of (some bs) = bs

abbrev leaf_text : Bytes
leaf_text = text_of (jcs_dumps (event_leaf none (sighting (codes "t") (codes "ocsp") request)))

octets : IsBytes leaf_text
unfolding jcs_dumps event_leaf sighting
octets = omega arith

logged : appended toy (λ x. x) (leaf_text ∷ []) nothing_yet ≡ (serve_all setup calls server).tlog
unfolding appended serve_all beacon jcs_dumps event_leaf sighting
logged = refl

log-IsFaithful : IsFaithful toy (serve_all setup calls server).tlog
log-IsFaithful = rw⁻¹ logged (
    appended-IsFaithful toy (λ x. x) toy-IsDigest toy-IsBytes (leaf_text ∷ []) nothing_yet
      (octets, tt) nothing_yet-IsFaithful)

anchored : Anchored setup (serve_all setup calls server)
anchored = serve_all-Anchored setup calls server tt

tlog_proofs_for_events-AllProved_example :
    (after : TransparencyLog) × (proofs : List EventProof) × (tlog_proofs_for_events toy
        (serve_all setup calls server).database.events
        (serve_all setup calls server).tlog
      ≡ some (after, proofs))
    × AllProved toy
        (serve_all setup calls server).tlog.leaves
        0
        (serve_all setup calls server).database.events
        proofs
tlog_proofs_for_events-AllProved_example =
    tlog_proofs_for_events-AllProved toy (serve_all setup calls server).database.events
      (serve_all setup calls server).tlog log-IsFaithful anchored
