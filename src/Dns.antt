-- ===== src/Dns.antt =====
-- oversight_dns/server.py: `OversightResolver`. Names are ASCII texts, on which `str.lower` is the
-- function below; dnslib and httpx are left out: a query is its name and type and the peer, and
-- what is posted to the registry is the body of `dns_event` with the secret that goes with it.
pub mod Names
pub mod Attribution
pub mod Examples
use oversight.Prelude.{
  ℕ, ◌+◌, ◌-◌, Bool, true, false, ◌&&◌, ◌||◌, Option, none, some, List, [], ◌∷◌, ◌++◌, Bytes, codes,
  beq, map, length, take, drop, leb, ◌==◌, if◌then◌else◌,
}
use oversight.Registry.Events.{DnsEvent}

-- `s.rstrip(c)` for one character.
unfoldable pub rstrip_char : ℕ → Bytes → Bytes
rstrip_char c [] = []
rstrip_char c (d ∷ s) = let rest = rstrip_char c s in if d == c && beq rest [] then [] else d ∷ rest

abbrev pub lower_ascii : ℕ → ℕ
lower_ascii c = if leb b'A' c && leb c b'Z' then c + 32 else c

-- `name.rstrip(".").lower()`
unfoldable pub normal_name : Bytes → Bytes
normal_name name = map lower_ascii (rstrip_char b'.' name)

pub record OversightResolver : Type 0 where
  pub beacon_domain : Bytes
  pub registry_url : Bytes
  pub answer_ip : Bytes
  pub registry_secret : Bytes
  pub token_suffix : Bytes

-- `__init__`
unfoldable pub new_resolver : Bytes → Bytes → Bytes → Bytes → OversightResolver
new_resolver beacon_domain registry_url answer_ip registry_secret = record {
  beacon_domain = normal_name beacon_domain;
  registry_url = rstrip_char b'/' registry_url;
  answer_ip = answer_ip;
  registry_secret = registry_secret;
  token_suffix = codes ".t." ++ normal_name beacon_domain;
}

-- `c in "0123456789abcdef"`
abbrev pub is_hex_char : ℕ → Bool
is_hex_char c = (leb b'0' c && leb c b'9') || (leb b'a' c && leb c b'f')

unfoldable pub all_hex : Bytes → Bool
all_hex [] = true
all_hex (c ∷ s) = is_hex_char c && all_hex s

-- `text.endswith(suffix)`
unfoldable pub endswith : Bytes → Bytes → Bool
endswith text suffix =
    leb (length suffix) (length text) && beq (drop (length text - length suffix) text) suffix

-- `text[:-len(suffix)]`; the suffix is not empty.
unfoldable pub without_suffix : Bytes → Bytes → Bytes
without_suffix text suffix = take (length text - length suffix) text

-- The tests of `resolve`. The empty token, which `if token_id` would pass over, has not 32
-- characters.
unfoldable pub token_in : Bytes → Bytes → Option Bytes
token_in qname suffix =
    let prefix = without_suffix qname suffix in
    if endswith qname suffix && (all_hex prefix && length prefix == 32) then some prefix else none

unfoldable pub token_of : OversightResolver → Bytes → Option Bytes
token_of resolver name = token_in (normal_name name) resolver.token_suffix

pub record Query : Type 0 where
  pub name : Bytes
  pub qtype : Bytes
  pub client_ip : Option Bytes

-- What is posted.
pub record Report : Type 0 where
  pub url : Bytes
  pub secret : Option Bytes
  pub event : DnsEvent

unfoldable pub report_of : OversightResolver → Query → Bytes → Report
report_of resolver query token_id = record {
  url = resolver.registry_url ++ codes "/dns_event";
  secret = if beq resolver.registry_secret [] then none else some resolver.registry_secret;
  event = record {
    token_id = token_id;
    client_ip = some (elim query.client_ip [ none ↦ codes "unknown" | some ip ↦ ip ]);
    qtype = some query.qtype;
    qname = some (normal_name query.name);
  };
}

unfoldable pub reported : OversightResolver → Query → Option Bytes → Option Report
reported resolver query none = none
reported resolver query (some token_id) = some (report_of resolver query token_id)

-- The report, if the name has the beacon's form, and the address of the answer, if it is asked for.
unfoldable pub resolve : OversightResolver → Query → Option Report × Option Bytes
resolve resolver query = (
  reported resolver query (token_of resolver query.name),
  if beq query.qtype (codes "A") then some resolver.answer_ip else none,
)
