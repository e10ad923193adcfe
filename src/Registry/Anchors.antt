-- ===== src/Registry/Anchors.antt =====
-- Rows of events and leaves of the log, over any sequence of requests of registry/server.py.
use oversight.Prelude.{
  ℕ, Bool, zero, suc, ◌≡◌, inl, inr, refl, ap, ◌∙◌, Option, some, List, [], ◌∷◌, ◌++◌, Bytes,
  Option-cases, length, get_elem?, All, All-append, none, codes,
}
use oversight.Json.{Json, Fields, str, dict, end, field}
use oversight.Jcs.{jcs_dumps}
use oversight.Table.{find_row, text_eq}
use oversight.Tlog.{size, append}
use oversight.Registry.{
  BeaconRow, EventRow, Server, Setup, Request, Reply, ok, refused, crashed, gate,
}
use oversight.Registry.Access.{rate_limit, verify_dns_event_auth}
use oversight.Registry.Register.{Registration, Admitted}
use oversight.Registry.Store.{register, register_leaf, log_registration}
use oversight.Registry.Store.Commit.{store-IsStored}
use oversight.Registry.Events.{
  beacon, record_event, dns_event, sighting, dns_sighting, observe, DnsEvent, Observation,
  event_leaf, event_row, or_null,
}
use oversight.Registry.Effects.{raised, committed, register-Outcome, with_bucket, with_database}
use oversight.Registry.Receipts.{append-eq-some}
use oversight.Registry.Issuers.{Call, register_call, beacon_call, dns_call, serve, serve_all}

get_elem?-append :
    {A : Type 0} (xs ys : List A) (i : ℕ) (x : A)
    → get_elem? xs i ≡ some x
    → get_elem? (xs ++ ys) i ≡ some x
get_elem?-append [] ys i x h = absurd (cc)
get_elem?-append (y ∷ xs) ys zero x h = h
get_elem?-append (y ∷ xs) ys (suc i) x h = get_elem?-append xs ys i x h

get_elem?_last : {A : Type 0} (xs : List A) (x : A) → get_elem? (xs ++ x ∷ []) (length xs) ≡ some x
get_elem?_last [] x = refl
get_elem?_last (y ∷ xs) x = get_elem?_last xs x

-- The record that stands in the log for a row of events, from the row's own columns and `rest`.
unfoldable pub row_leaf : EventRow → Fields → Json
row_leaf e rest = dict (
    field (codes "event") (str (codes "beacon")) (
      field (codes "kind") (str e.kind) (
        field (codes "token_id") (str e.token_id) (
          field (codes "file_id") (or_null e.file_id) (
            field (codes "recipient_id") (or_null e.recipient_id)
              (field (codes "source_ip") (or_null e.source_ip) rest))))))

unfoldable pub stamp_of : EventRow → Fields
stamp_of e = field (codes "timestamp") (str e.qualified_timestamp) end

-- The end of the record: for a request by HTTP the user agent and the time of the row; for a query
-- by DNS the name and the type that the row has in `extra`, and its time.
pub data IsEnd (e : EventRow) : Fields → Type 0 where
  by_http :
      e.extra ≡ dict end → IsEnd e (field (codes "user_agent") (str e.user_agent) (stamp_of e))
  by_dns :
      (qname qtype : Json)
      → e.kind ≡ codes "dns"
      → e.extra ≡ dict (field (codes "qtype") qtype (field (codes "qname") qname end))
      → IsEnd e (field (codes "qname") qname (field (codes "qtype") qtype (stamp_of e)))

-- The leaf at the row's index is the hash of the canonical text of the row's record.
pub record IsAnchored (sha256 : Bytes → Bytes) (leaves : List Bytes) (e : EventRow) : Type 0 where
  pub rest : Fields
  pub text : Bytes
  pub ends : IsEnd e rest
  pub written : jcs_dumps (row_leaf e rest) ≡ some text
  pub leaf : get_elem? leaves e.tlog_index ≡ some (sha256 (0 ∷ text))

leaf_of_row :
    (row : Option BeaconRow) (seen : Observation) (request : Request) (index : ℕ)
    → row_leaf (event_row row seen request.time request.stamp index) seen.leaf_end
      ≡ event_leaf row seen
unfolding row_leaf event_leaf event_row or_null
leaf_of_row none seen request index = refl
leaf_of_row (some row) seen request index = refl

sighting-IsEnd :
    (row : Option BeaconRow) (token_id kind : Bytes) (request : Request) (index : ℕ)
    → let seen = sighting token_id kind request in
      IsEnd (event_row row seen request.time request.stamp index) seen.leaf_end
unfolding stamp_of event_row sighting
sighting-IsEnd row token_id kind request index = by_http refl

dns_sighting-IsEnd :
    (row : Option BeaconRow) (evt : DnsEvent) (request : Request) (index : ℕ)
    → let seen = dns_sighting evt request in
      IsEnd (event_row row seen request.time request.stamp index) seen.leaf_end
unfolding stamp_of event_row dns_sighting
dns_sighting-IsEnd row evt request index = by_dns (or_null evt.qname) (or_null evt.qtype) refl refl

module _ (setup : Setup) where
  -- Every row of events is anchored.
  abbrev pub Anchored : Server → Type 0
  Anchored server = All (IsAnchored setup.sha256 server.tlog.leaves) server.database.events

  -- A longer log anchors what the shorter one does.
  grown :
      (leaves more : List Bytes) (events : List EventRow)
      → All (IsAnchored setup.sha256 leaves) events
      → All (IsAnchored setup.sha256 (leaves ++ more)) events
  grown leaves more [] h = tt
  grown leaves more (e ∷ events) (a, h) = (
    record {
      rest = a.rest;
      text = a.text;
      ends = a.ends;
      written = a.written;
      leaf = get_elem?-append leaves more e.tlog_index (setup.sha256 (0 ∷ a.text)) a.leaf;
    },
    grown leaves more events h,
  )

  observe-Anchored :
      (seen : Observation) (request : Request) (server : Server)
      → ((row : Option BeaconRow) (index : ℕ)
          → IsEnd (event_row row seen request.time request.stamp index) seen.leaf_end)
      → Anchored server
      → Anchored (observe setup seen request server).0
  unfolding observe size
  observe-Anchored seen request server ends h =
      let row = find_row seen.token_id server.database.beacons in
      elim (Option-cases
        (append setup.sha256 setup.decode_replace (event_leaf row seen) server.tlog)) [
          | inl e ↦ rw (e, observe) h
          | inr ((tlog, index), e) ↦
              let (text, dumped, leaves, place) =
                append-eq-some setup.sha256 setup.decode_replace (event_leaf row seen) server.tlog
                  tlog index e in
              let event = event_row row seen request.time request.stamp index in
              let anchored : IsAnchored setup.sha256
                  (server.tlog.leaves ++ setup.sha256 (0 ∷ text) ∷ []) event =
                record {
                  rest = seen.leaf_end;
                  text = text;
                  ends = ends row index;
                  written = ap jcs_dumps (leaf_of_row row seen request index) ∙ dumped;
                  leaf =
                      ap (get_elem? (server.tlog.leaves ++ setup.sha256 (0 ∷ text) ∷ [])) place
                      ∙ get_elem?_last server.tlog.leaves (setup.sha256 (0 ∷ text));
                } in
              rw (e, observe)
                (rw leaves (
                  All-append _ server.database.events (event ∷ [])
                    (grown server.tlog.leaves (setup.sha256 (0 ∷ text) ∷ []) server.database.events
                      h)
                    (anchored, tt)))
        ]

  gate-Anchored :
      {A : Type 0} (server : Server) (r : Reply Bool) (next : Server × Reply A)
      → Anchored server
      → Anchored next.0
      → Anchored (gate server r next).0
  unfolding gate
  gate-Anchored server (ok b) next h k = k
  gate-Anchored server (refused status message) next h k = h
  gate-Anchored server crashed next h k = h

  rate_limit-Anchored :
      (trusted_proxy : Bool) (request : Request) (server : Server)
      → Anchored server
      → Anchored (rate_limit trusted_proxy server request).0
  unfolding rate_limit
  rate_limit-Anchored trusted_proxy request server h = h

  beacon-Anchored :
      (token_id kind : Bytes) (request : Request) (server : Server)
      → Anchored server
      → Anchored (beacon setup token_id kind request server).0
  unfolding beacon record_event
  beacon-Anchored token_id kind request server h =
      let charged = rate_limit setup.trusted_proxy server request in
      let same = rate_limit-Anchored setup.trusted_proxy request server h in
      gate-Anchored charged.0 charged.1 (record_event setup token_id kind request charged.0) same (
        observe-Anchored (sighting token_id kind request) request charged.0
          (λ row index. sighting-IsEnd row token_id kind request index) same)

  dns_event-Anchored :
      (evt : DnsEvent) (request : Request) (server : Server)
      → Anchored server
      → Anchored (dns_event setup evt request server).0
  unfolding dns_event
  dns_event-Anchored evt request server h =
      let charged = rate_limit setup.trusted_proxy server request in
      let same = rate_limit-Anchored setup.trusted_proxy request server h in
      let allowed = verify_dns_event_auth setup.is_loopback setup.dns_event_secret request in
      let next = observe setup (dns_sighting evt request) request charged.0 in
      gate-Anchored charged.0 charged.1 (gate charged.0 allowed next) same (
        gate-Anchored charged.0 allowed next same (
          observe-Anchored (dns_sighting evt request) request charged.0
            (λ row index. dns_sighting-IsEnd row evt request index) same))

  log_registration-Anchored :
      (request : Request) (a : Admitted) (server : Server)
      → Anchored server
      → Anchored (log_registration setup request a server).0
  unfolding log_registration
  log_registration-Anchored request a server h =
      elim (Option-cases
        (append setup.sha256 setup.decode_replace (register_leaf a request.stamp) server.tlog)) [
          | inl e ↦ rw (e, log_registration) h
          | inr ((tlog, index), e) ↦
              let (text, _, leaves, _) =
                append-eq-some setup.sha256 setup.decode_replace (register_leaf a request.stamp)
                  server.tlog tlog index e in
              rw (e, log_registration)
                (rw leaves (
                  grown server.tlog.leaves (setup.sha256 (0 ∷ text) ∷ []) server.database.events h))
        ]

  register-Anchored :
      (req : Registration) (request : Request) (server : Server)
      → Anchored server
      → Anchored (register setup req request server).0
  unfolding with_bucket
  register-Anchored req request server h = elim (register-Outcome setup req request server) [
    | raised bucket reply e _ ↦ rw e h
    | committed bucket a db _ _ _ _ _ stored e ↦
        let s = store-IsStored setup.text_of_value req a request.time server.database db stored in
        rw e (
          log_registration-Anchored request a (with_database (with_bucket server bucket) db)
            (rw s.events h))
  ]

  serve-Anchored :
      (call : Call) (server : Server) → Anchored server → Anchored (serve setup call server)
  unfolding serve
  serve-Anchored (register_call req request) server h = register-Anchored req request server h
  serve-Anchored (beacon_call token_id kind request) server h =
      beacon-Anchored token_id kind request server h
  serve-Anchored (dns_call evt request) server h = dns_event-Anchored evt request server h

  -- Over any sequence of registrations, beacon requests and DNS events, granted or not, every row of
  -- events stays backed by the log, if all are at the start: its index is that of a leaf, and the leaf
  -- is the hash of the canonical text of the record with the row's kind, token, file, recipient,
  -- address and time, and with its user agent or, for a query by DNS, its name and type.
  pub serve_all-Anchored :
      (calls : List Call) (server : Server)
      → Anchored server
      → Anchored (serve_all setup calls server)
  unfolding serve_all
  serve_all-Anchored [] server h = h
  serve_all-Anchored (call ∷ calls) server h =
      serve_all-Anchored calls (serve setup call server) (serve-Anchored call server h)
