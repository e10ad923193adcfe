-- ===== src/Dns/Attribution.antt =====
-- From the query to the row of the registry: who is named when a beacon's DNS name is looked up.
use oversight.Prelude.{
  ℕ, ◌≡◌, refl, ap, ◌∙◌, sym, Option, some, List, [], ◌∷◌, ◌++◌, Bytes, IsBytes, length, codes, beq,
  none, Bool, false, get_elem?, All-get_elem?, inl, inr, Option-cases,
}
use oversight.Json.{dict, end, field}
use oversight.Table.{text_eq, find_row}
use oversight.Tlog.{append}
use oversight.Beacon.{Beacon, gen_beacons}
use oversight.Dns.{
  normal_name, OversightResolver, new_resolver, token_of, Query, Report, report_of, reported,
  resolve,
}
use oversight.Dns.Names.{IsResolved, gen_beacons-IsResolved}
use oversight.Registry.{
  BeaconRow, EventRow, Server, Setup, Request, Reply, ok, refused, crashed, gate,
}
use oversight.Registry.Access.{rate_limit, verify_dns_event_auth}
use oversight.Registry.Events.{
  DnsEvent, or_null, observe, event_leaf, event_row, dns_sighting, dns_event,
}

-- What is to be posted for a query with the token: the peer, or `unknown`, the type and the name.
abbrev pub asked_of : Query → Bytes → DnsEvent
asked_of query token_id = record {
  token_id = token_id;
  client_ip = some (elim query.client_ip [ none ↦ codes "unknown" | some ip ↦ ip ]);
  qtype = some query.qtype;
  qname = some (normal_name query.name);
}

-- The row that says what was posted, and names the owner of the beacon.
pub record Names (evt : DnsEvent) (row : BeaconRow) (index : ℕ) (event : EventRow) : Type 0 where
  pub token : event.token_id ≡ evt.token_id
  pub source : event.source_ip ≡ evt.client_ip
  pub query :
      event.extra
      ≡ dict (
          field (codes "qtype") (or_null evt.qtype) (field (codes "qname") (or_null evt.qname) end))
  pub file : event.file_id ≡ some row.file_id
  pub recipient : event.recipient_id ≡ some row.recipient_id
  pub issuer : event.issuer_id ≡ some row.issuer_id
  pub kind : event.kind ≡ codes "dns"
  pub place : event.tlog_index ≡ index

gate-ok :
    {A : Type 0} (server : Server) (r : Reply Bool) (next : Server × Reply A) (after : Server)
    (a : A)
    → gate server r next ≡ (after, ok a)
    → next ≡ (after, ok a)
unfolding gate
gate-ok server (ok b) next after a h = h
gate-ok server (refused n m) next after a h = let e : refused n m ≡ ok a = ap (λ p. p.1) h in cc
gate-ok server crashed next after a h = let e : crashed ≡ ok a = ap (λ p. p.1) h in cc

observed :
    (setup : Setup) (evt : DnsEvent) (request : Request) (server after : Server) (index : ℕ)
    (row : BeaconRow)
    → find_row evt.token_id server.database.beacons ≡ some row
    → observe setup (dns_sighting evt request) request server ≡ (after, ok index)
    → (event : EventRow) × (after.database.events ≡ server.database.events ++ event ∷ [])
      × Names evt row index event
unfolding observe event_row dns_sighting
observed setup evt request server after index row known h =
    let seen = dns_sighting evt request in
    let found = find_row evt.token_id server.database.beacons in
    elim (Option-cases
      (append setup.sha256 setup.decode_replace (event_leaf found seen) server.tlog)) [
        | inl e ↦
            let eqn : observe setup seen request server ≡ (server, crashed) =
              rw (e, observe) refl in
            let c : crashed ≡ ok index = ap (λ p. p.1) (sym eqn ∙ h) in absurd (cc)
        | inr ((tlog, i), e) ↦
            let event = event_row found seen request.time request.stamp i in
            let next = record server {
              tlog = tlog;
              database = record server.database { events = server.database.events ++ event ∷ [] };
            } in
            let eqn : observe setup seen request server ≡ (next, ok i) = rw (e, observe) refl in
            let same = sym eqn ∙ h in
            let n : ok i ≡ ok index = ap (λ p. p.1) same in
            (
              event,
              sym (ap (λ p. p.0.database.events) same),
              record {
                token = refl;
                source = refl;
                query = refl;
                file = rw known;
                recipient = rw known;
                issuer = rw known;
                kind = refl;
                place = cc;
              },
            )
      ]

-- `dns_event` charges the limiter, which leaves the database as it is.
answered :
    (setup : Setup) (evt : DnsEvent) (request : Request) (server after : Server) (index : ℕ)
    (row : BeaconRow)
    → find_row evt.token_id server.database.beacons ≡ some row
    → dns_event setup evt request server ≡ (after, ok index)
    → (event : EventRow) × (after.database.events ≡ server.database.events ++ event ∷ [])
      × Names evt row index event
unfolding dns_event rate_limit
answered setup evt request server after index row known h =
    let charged = rate_limit setup.trusted_proxy server request in
    let allowed = verify_dns_event_auth setup.is_loopback setup.dns_event_secret request in
    let next = observe setup (dns_sighting evt request) request charged.0 in
    observed setup evt request charged.0 after index row known (
      gate-ok charged.0 allowed next after index
        (gate-ok charged.0 charged.1 (gate charged.0 allowed next) after index h))

resolve_report :
    (resolver : OversightResolver) (query : Query) (token : Bytes)
    → token_of resolver query.name ≡ some token
    → (report : Report) × ((resolve resolver query).0 ≡ some report)
      × (report.event ≡ asked_of query token)
unfolding resolve reported report_of
resolve_report resolver query token e = (report_of resolver query token, rw e refl, refl)

-- The name of any beacon that was generated for a domain, looked up in any case and with any dots
-- behind it and for any type of record, is reported by the resolver of the domain: the token, the
-- peer or `unknown`, the type and the name. When the registry knows the token and answers that
-- report, its only new event has the report's token, address, type and name, and names the file,
-- the recipient and the issuer that the token is registered for, with the kind `dns` and the index
-- that was answered. The domain is not only dots, and every draw has 16 bytes.
pub dns_event-Names :
    (random : ℕ → Bytes)
    → ((i : ℕ) → IsBytes (random i) × (length (random i) ≡ 16))
    → (domain registry_url answer_ip secret : Bytes) → beq (normal_name domain) [] ≡ false
    → (include : Option (List Bytes)) (k : ℕ) (b : Beacon) (host : Bytes)
    → get_elem? (gen_beacons random domain include) k ≡ some b
    → b.dns_name ≡ some host
    → (query : Query) → normal_name query.name ≡ normal_name host
    → (setup : Setup) (request : Request) (server after : Server) (index : ℕ) (row : BeaconRow)
    → find_row b.token_id server.database.beacons ≡ some row
    → dns_event setup (asked_of query b.token_id) request server ≡ (after, ok index)
    → ((report : Report) × ((resolve (new_resolver domain registry_url answer_ip secret) query).0
          ≡ some report)
        × (report.event ≡ asked_of query b.token_id))
      × ((event : EventRow) × (after.database.events ≡ server.database.events ++ event ∷ [])
          × Names (asked_of query b.token_id) row index event)
dns_event-Names random draws domain registry_url answer_ip secret named include k b host chosen dns
      query spelled setup request server after index row known h =
    let resolver = new_resolver domain registry_url answer_ip secret in
    let resolved =
      All-get_elem? (IsResolved resolver) (gen_beacons random domain include) k b
        (gen_beacons-IsResolved random draws domain registry_url answer_ip secret named include)
        chosen in
    (
      resolve_report resolver query b.token_id (resolved host query.name dns spelled),
      answered setup (asked_of query b.token_id) request server after index row known h,
    )
