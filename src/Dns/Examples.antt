-- ===== src/Dns/Examples.antt =====
-- Runs of the resolver, and instances of its theorems.
use oversight.Prelude.{
  ℕ, ◌≡◌, ◌↔◌, refl, true, none, some, [], ◌∷◌, ◌++◌, Bytes, IsBytes, length, codes, arith,
  replicate,
}
use oversight.Beacon.{Beacon, gen_beacons, beacon_host}
use oversight.Dns.{
  normal_name, rstrip_char, endswith, without_suffix, all_hex, token_in, new_resolver, token_of,
  Query, Report, resolve, reported,
}
use oversight.Dns.Names.{token_of_iff}
use oversight.Dns.Attribution.{asked_of, Names, dns_event-Names}
use oversight.Registry.{BeaconRow, EventRow, Server, Setup}
use oversight.Registry.Events.{dns_event}
use oversight.Registry.Examples.{setup, request, server}

abbrev domain : Bytes
domain = codes "Leaks.example."

abbrev random : ℕ → Bytes
random i = replicate 16 0xab

draws : (i : ℕ) → IsBytes (random i) × (length (random i) ≡ 16)
draws i = (omega arith, refl)

abbrev token : Bytes
token = codes "abababababababababababababababab"

abbrev query : Query
query = record { name = token ++ codes ".T.LEAKS.example.."; qtype = codes "TXT"; client_ip = none }

token_run : token_of (new_resolver domain [] [] []) query.name ≡ some token
unfolding token_of token_in endswith without_suffix all_hex normal_name rstrip_char new_resolver
token_run = refl

other_name_run : token_of (new_resolver domain [] [] []) (codes "www.leaks.example") ≡ none
unfolding token_of token_in endswith without_suffix all_hex normal_name rstrip_char new_resolver
other_name_run = refl

token_of_iff_example : (token_of (new_resolver domain [] [] []) query.name ≡ some token) ↔ (
    (normal_name query.name ≡ token ++ (new_resolver domain [] [] []).token_suffix)
    × (all_hex token ≡ true)
    × (length token ≡ 32))
token_of_iff_example = token_of_iff (new_resolver domain [] [] []) query.name token

abbrev dns_beacon : Beacon
dns_beacon = record {
  token_id = token;
  kind = codes "dns";
  url = codes "dns://" ++ beacon_host token domain;
  dns_name = some (beacon_host token domain);
}

abbrev beacon_row : BeaconRow
beacon_row = record {
  file_id = codes "f1";
  recipient_id = codes "bob";
  issuer_id = codes "alice";
  kind = codes "dns";
  registered_at = 1;
}

abbrev registered : Server
registered = record server {
  database = record server.database { beacons = (token, beacon_row) ∷ [] };
}

-- A registry without a secret takes reports from its own host.
abbrev local : Setup
local = record setup { is_loopback = λ host. some true }

-- The registry after the report.
abbrev told : Server
told = (dns_event local (asked_of query token) request registered).0

dns_event-Names_example :
    ((report : Report) × ((resolve (new_resolver domain [] [] []) query).0 ≡ some report)
      × (report.event ≡ asked_of query token))
    × ((event : EventRow) × (told.database.events ≡ [] ++ event ∷ [])
        × Names (asked_of query token) beacon_row 0 event)
unfolding dns_event normal_name rstrip_char new_resolver resolve reported token_of token_in endswith
    without_suffix all_hex gen_beacons
dns_event-Names_example =
    dns_event-Names random draws domain [] [] [] refl none 0 dns_beacon (beacon_host token domain)
      refl refl query refl local request registered told 0 beacon_row refl refl
