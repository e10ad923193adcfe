-- ===== src/Registry/Events.antt =====
-- registry/server.py: `_record_event`, the beacon endpoints that call it, and `dns_event`.
use oversight.Prelude.{ℕ, Option, none, some, [], ◌∷◌, ◌++◌, Bytes, codes}
use oversight.Json.{Json, Fields, null, str, dict, end, field}
use oversight.Table.{find_row, text_eq}
use oversight.Tlog.{append}
use oversight.Registry.{BeaconRow, EventRow, Server, Setup, Request, Reply, ok, crashed, gate}
use oversight.Registry.Access.{rate_limit, verify_dns_event_auth}

unfoldable pub or_null : Option Bytes → Json
or_null none = null
or_null (some text) = str text

pub record DnsEvent : Type 0 where
  pub token_id : Bytes
  pub client_ip : Option Bytes
  pub qtype : Option Bytes
  pub qname : Option Bytes

-- What the two writers of events differ in: the row's own columns, and the end of the leaf.
pub record Observation : Type 0 where
  pub token_id : Bytes
  pub kind : Bytes
  pub source_ip : Option Bytes
  pub user_agent : Bytes
  pub extra : Json
  pub leaf_end : Fields

-- The leaf of an event: its beacon's file and recipient, where the token is known.
unfoldable pub event_leaf : Option BeaconRow → Observation → Json
unfolding or_null
event_leaf row seen = dict (
    field (codes "event") (str (codes "beacon")) (
      field (codes "kind") (str seen.kind) (
        field (codes "token_id") (str seen.token_id) (
          field (codes "file_id") (elim row [ none ↦ null | some r ↦ str r.file_id ])
            (field (codes "recipient_id") (elim row [ none ↦ null | some r ↦ str r.recipient_id ])
              (field (codes "source_ip") (or_null seen.source_ip) seen.leaf_end))))))

unfoldable pub event_row : Option BeaconRow → Observation → ℕ → Bytes → ℕ → EventRow
event_row row seen now stamp index = record {
  token_id = seen.token_id;
  file_id = elim row [ none ↦ none | some r ↦ some r.file_id ];
  recipient_id = elim row [ none ↦ none | some r ↦ some r.recipient_id ];
  issuer_id = elim row [ none ↦ none | some r ↦ some r.issuer_id ];
  kind = seen.kind;
  source_ip = seen.source_ip;
  user_agent = seen.user_agent;
  extra = seen.extra;
  timestamp = now;
  qualified_timestamp = stamp;
  tlog_index = index;
}

-- The part that both writers have: the look-up, the leaf, and then the row.
unfoldable pub observe : Setup → Observation → Request → Server → Server × Reply ℕ
unfolding find_row append event_leaf event_row
observe setup seen request server =
    let row = find_row seen.token_id server.database.beacons in
    elim (append setup.sha256 setup.decode_replace (event_leaf row seen) server.tlog) [
      | none ↦ (server, crashed)
      | some (tlog, index) ↦
          let event = event_row row seen request.time request.stamp index in
          (
            record server {
              tlog = tlog;
              database = record server.database { events = server.database.events ++ event ∷ [] };
            },
            ok index,
          )
    ]

-- What `_record_event` reads of the request.
unfoldable pub sighting : Bytes → Bytes → Request → Observation
sighting token_id kind request =
    let user_agent : Bytes = elim (request.headers (codes "user-agent")) [
      | none ↦ []
      | some text ↦ text
    ] in
    record {
      token_id = token_id;
      kind = kind;
      source_ip = request.client_host;
      user_agent = user_agent;
      extra = dict end;
      leaf_end =
          field (codes "user_agent") (str user_agent)
            (field (codes "timestamp") (str request.stamp) end);
    }

unfoldable pub record_event : Setup → Bytes → Bytes → Request → Server → Server × Reply ℕ
unfolding observe sighting
record_event setup token_id kind request server =
    observe setup (sighting token_id kind request) request server

-- `beacon_png`, `beacon_ocsp` and `beacon_license`, which differ in `kind` and in the fixed answer.
unfoldable pub beacon : Setup → Bytes → Bytes → Request → Server → Server × Reply ℕ
unfolding rate_limit record_event gate
beacon setup token_id kind request server =
    let (charged, granted) = rate_limit setup.trusted_proxy server request in
    gate charged granted (record_event setup token_id kind request charged)

-- What `dns_event` takes from the body of the call.
unfoldable pub dns_sighting : DnsEvent → Request → Observation
unfolding or_null
dns_sighting evt request = record {
  token_id = evt.token_id;
  kind = codes "dns";
  source_ip = evt.client_ip;
  user_agent = [];
  extra =
      dict
        (field (codes "qtype") (or_null evt.qtype) (field (codes "qname") (or_null evt.qname) end));
  leaf_end = field (codes "qname") (or_null evt.qname) (
      field (codes "qtype") (or_null evt.qtype)
        (field (codes "timestamp") (str request.stamp) end));
}

unfoldable pub dns_event : Setup → DnsEvent → Request → Server → Server × Reply ℕ
unfolding rate_limit verify_dns_event_auth observe dns_sighting gate
dns_event setup evt request server =
    let (charged, granted) = rate_limit setup.trusted_proxy server request in
    let allowed = verify_dns_event_auth setup.is_loopback setup.dns_event_secret request in
    gate charged granted
      (gate charged allowed (observe setup (dns_sighting evt request) request charged))
