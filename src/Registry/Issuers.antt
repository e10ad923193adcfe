-- ===== src/Registry/Issuers.antt =====
-- Who holds a file: the issuer's key of its row, over any sequence of requests.
use oversight.Prelude.{
  ℕ, Bool, false, ◌≡◌, inl, inr, refl, sym, ap, ◌∙◌, Option, none, some, List, [], ◌∷◌, Bytes, beq,
  beq_iff, arith, Bool-cases, Option-cases, if◌then◌else◌,
}
use oversight.Table.{Table, find_row, text_eq}
use oversight.Table.Laws.{find_row-put_row}
use oversight.Tlog.{append}
use oversight.Registry.{
  ManifestRow, Database, Server, Setup, Request, Reply, ok, refused, crashed, gate,
}
use oversight.Registry.Access.{rate_limit, verify_dns_event_auth}
use oversight.Registry.Register.{Registration, Admitted}
use oversight.Registry.Store.{register, held_by_other, Receipt}
use oversight.Registry.Store.Commit.{IsStored, store-IsStored}
use oversight.Registry.Events.{
  beacon, record_event, dns_event, sighting, dns_sighting, observe, DnsEvent, Observation,
  event_leaf,
}
use oversight.Registry.Effects.{
  raised, committed, register-Outcome, with_bucket, with_database, log_registration_database,
}

-- The key on file for an identifier.
unfoldable pub issuer_on_file : Bytes → Database → Option Bytes
issuer_on_file file_id db = elim (find_row file_id db.manifests) [
  | none ↦ none
  | some row ↦ some row.issuer_ed25519_pub
]

-- A request that writes.
pub data Call : Type 0 where
  register_call : Registration → Request → Call
  beacon_call : Bytes → Bytes → Request → Call
  dns_call : DnsEvent → Request → Call

unfoldable pub serve : Setup → Call → Server → Server
unfolding register beacon dns_event
serve setup (register_call req request) server = (register setup req request server).0
serve setup (beacon_call token_id kind request) server =
    (beacon setup token_id kind request server).0
serve setup (dns_call evt request) server = (dns_event setup evt request server).0

unfoldable pub serve_all : Setup → List Call → Server → Server
unfolding serve
serve_all setup [] server = server
serve_all setup (call ∷ calls) server = serve_all setup calls (serve setup call server)

IsStored-same :
    (a : Admitted) (db after : Database) (file_id key : Bytes) (s : IsStored a db after)
    → held_by_other a.issuer_pub (find_row file_id db.manifests) ≡ false
    → find_row file_id after.manifests ≡ some s.row
    → issuer_on_file file_id db ≡ some key
    → issuer_on_file file_id after ≡ some key
unfolding issuer_on_file held_by_other
IsStored-same a db after file_id key s free found h =
    elim (Option-cases (find_row file_id db.manifests)) [
      | inl e ↦ absurd (ground (arith, e, h))
      | inr (old, e) ↦
          let held = beq_iff old.issuer_ed25519_pub a.issuer_pub in
          let same : old.issuer_ed25519_pub ≡ a.issuer_pub = ground (arith, e, free, held) in
          let old_key : old.issuer_ed25519_pub ≡ key = ground (arith, e, h) in
          let new_key : s.row.issuer_ed25519_pub ≡ key = s.issuer ∙ sym same ∙ old_key in
          ground (arith, found, new_key)
    ]

IsStored-issuer :
    (a : Admitted) (db after : Database) (file_id key : Bytes)
    → IsStored a db after
    → issuer_on_file file_id db ≡ some key
    → issuer_on_file file_id after ≡ some key
unfolding issuer_on_file held_by_other
IsStored-issuer a db after file_id key s h =
    let found : find_row file_id after.manifests
        ≡ (if beq s.key file_id then some s.row else find_row file_id db.manifests) =
      ap (find_row file_id) s.manifests ∙ find_row-put_row s.key file_id s.row db.manifests in
    elim (Bool-cases (beq s.key file_id)) [
      | inl e ↦
          let same : s.key ≡ file_id = (beq_iff s.key file_id).0 e in
          let free : held_by_other a.issuer_pub (find_row file_id db.manifests) ≡ false =
            ap (λ x. held_by_other a.issuer_pub (find_row x db.manifests)) (sym same) ∙ s.free in
          IsStored-same a db after file_id key s free (ground (arith, found, e)) h
      | inr e ↦ ground (arith, found, e, h)
    ]

observe_manifests :
    (setup : Setup) (seen : Observation) (request : Request) (server : Server)
    → (observe setup seen request server).0.database.manifests ≡ server.database.manifests
unfolding observe
observe_manifests setup seen request server =
    let row = find_row seen.token_id server.database.beacons in
    elim (Option-cases
      (append setup.sha256 setup.decode_replace (event_leaf row seen) server.tlog)) [
        | inl e ↦ ground (arith, e)
        | inr ((tlog, index), e) ↦ ground (arith, e)
      ]

rate_limit_manifests :
    (trusted_proxy : Bool) (server : Server) (request : Request)
    → (rate_limit trusted_proxy server request).0.database.manifests ≡ server.database.manifests
unfolding rate_limit
rate_limit_manifests trusted_proxy server request = refl

gate_manifests :
    (t : Table Bytes ManifestRow) (server : Server) (r : Reply Bool) (next : Server × Reply ℕ)
    → server.database.manifests ≡ t
    → next.0.database.manifests ≡ t
    → (gate server r next).0.database.manifests ≡ t
unfolding gate
gate_manifests t server (ok b) next h k = k
gate_manifests t server (refused status message) next h k = h
gate_manifests t server crashed next h k = h

record_event_manifests :
    (setup : Setup) (token_id kind : Bytes) (request : Request) (server : Server)
    → (record_event setup token_id kind request server).0.database.manifests
      ≡ server.database.manifests
unfolding record_event
record_event_manifests setup token_id kind request server =
    observe_manifests setup (sighting token_id kind request) request server

beacon_manifests :
    (setup : Setup) (token_id kind : Bytes) (request : Request) (server : Server)
    → (beacon setup token_id kind request server).0.database.manifests ≡ server.database.manifests
unfolding beacon
beacon_manifests setup token_id kind request server =
    let charged = rate_limit setup.trusted_proxy server request in
    let same = rate_limit_manifests setup.trusted_proxy server request in
    gate_manifests server.database.manifests charged.0 charged.1
      (record_event setup token_id kind request charged.0) same
      (record_event_manifests setup token_id kind request charged.0 ∙ same)

dns_event_manifests :
    (setup : Setup) (evt : DnsEvent) (request : Request) (server : Server)
    → (dns_event setup evt request server).0.database.manifests ≡ server.database.manifests
unfolding dns_event
dns_event_manifests setup evt request server =
    let charged = rate_limit setup.trusted_proxy server request in
    let same = rate_limit_manifests setup.trusted_proxy server request in
    let allowed = verify_dns_event_auth setup.is_loopback setup.dns_event_secret request in
    let next = observe setup (dns_sighting evt request) request charged.0 in
    gate_manifests server.database.manifests charged.0 charged.1 (gate charged.0 allowed next) same
      (gate_manifests server.database.manifests charged.0 allowed next same
        (observe_manifests setup (dns_sighting evt request) request charged.0 ∙ same))

register_issuer :
    (setup : Setup) (req : Registration) (request : Request) (server : Server) (file_id key : Bytes)
    → issuer_on_file file_id server.database ≡ some key
    → issuer_on_file file_id (register setup req request server).0.database ≡ some key
unfolding with_bucket
register_issuer setup req request server file_id key h =
    elim (register-Outcome setup req request server) [
      | raised bucket reply e _ ↦
          ap (λ (o : Server × Reply Receipt). issuer_on_file file_id o.0.database) e ∙ h
      | committed bucket a db _ _ _ _ _ stored e ↦
          let s = store-IsStored setup.text_of_value req a request.time server.database db stored in
          ap (λ (o : Server × Reply Receipt). issuer_on_file file_id o.0.database) e
          ∙ ap (issuer_on_file file_id) (
              log_registration_database setup request a
                (with_database (with_bucket server bucket) db))
          ∙ IsStored-issuer a server.database db file_id key s h
    ]

issuer_on_file-manifests :
    (file_id : Bytes) (db after : Database)
    → after.manifests ≡ db.manifests
    → issuer_on_file file_id after ≡ issuer_on_file file_id db
unfolding issuer_on_file
issuer_on_file-manifests file_id db after e = rw e refl

serve_issuer :
    (setup : Setup) (call : Call) (server : Server) (file_id key : Bytes)
    → issuer_on_file file_id server.database ≡ some key
    → issuer_on_file file_id (serve setup call server).database ≡ some key
unfolding serve
serve_issuer setup (register_call req request) server file_id key h =
    register_issuer setup req request server file_id key h
serve_issuer setup (beacon_call token_id kind request) server file_id key h =
    issuer_on_file-manifests file_id server.database _
      (beacon_manifests setup token_id kind request server)
    ∙ h
serve_issuer setup (dns_call evt request) server file_id key h =
    issuer_on_file-manifests file_id server.database _
      (dns_event_manifests setup evt request server)
    ∙ h

-- Over any sequence of registrations, beacon requests and DNS events, granted or not, the issuer's
-- key on file for an identifier stays what it was, once there is one.
pub serve_all_issuer :
    (setup : Setup) (calls : List Call) (server : Server) (file_id key : Bytes)
    → issuer_on_file file_id server.database ≡ some key
    → issuer_on_file file_id (serve_all setup calls server).database ≡ some key
unfolding serve_all
serve_all_issuer setup [] server file_id key h = h
serve_all_issuer setup (call ∷ calls) server file_id key h =
    serve_all_issuer setup calls (serve setup call server) file_id key
      (serve_issuer setup call server file_id key h)
