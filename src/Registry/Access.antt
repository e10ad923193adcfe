-- ===== src/Registry/Access.antt =====
-- registry/server.py: who asks, how often, and whether he may.
use oversight.Prelude.{
  ℕ, ◌+◌, Bool, true, false, not, ◌&&◌, ◌||◌, Option, none, some, List, [], ◌∷◌, Bytes, beq, codes,
  drop, take, leb, ltb, ◌==◌, if◌then◌else◌,
}
use oversight.RateLimit.{allow}
use oversight.Registry.{Server, Request, Reply, ok, ◌>>=◌, or_crash, require}

-- White space of `str.strip` among the code points of a header, which are below 256.
is_blank : ℕ → Bool
is_blank c = (leb 9 c && leb c 13) || (leb 28 c && leb c 32) || c == 133 || c == 160

lstrip : Bytes → Bytes
unfolding is_blank
lstrip [] = []
lstrip (c ∷ s) = let rest = lstrip s in if is_blank c then rest else c ∷ s

rstrip : Bytes → Bytes
unfolding is_blank
rstrip [] = []
rstrip (c ∷ s) = let rest = rstrip s in if is_blank c && beq rest [] then [] else c ∷ rest

unfoldable pub strip : Bytes → Bytes
unfolding lstrip rstrip
strip s = rstrip (lstrip s)

grow_first : ℕ → List Bytes → List Bytes
grow_first c [] = (c ∷ []) ∷ []
grow_first c (part ∷ parts) = (c ∷ part) ∷ parts

-- `xff.split(",")`
split_commas : Bytes → List Bytes
unfolding grow_first
split_commas [] = [] ∷ []
split_commas (c ∷ s) =
    let parts = split_commas s in if c == 44 then [] ∷ parts else grow_first c parts

-- The last part that is not blank.
last_part : List Bytes → Option Bytes
unfolding strip
last_part [] = none
last_part (part ∷ parts) = elim (last_part parts) [
  | some later ↦ some later
  | none ↦ let text = strip part in if beq text [] then none else some text
]

unfoldable pub xff_client : Bytes → Option Bytes
unfolding split_commas last_part
xff_client xff = last_part (split_commas xff)

header : Request → Bytes → Bytes
header request name = elim (request.headers name) [ none ↦ [] | some value ↦ value ]

peer : Request → Bytes
peer request = elim request.client_host [ none ↦ codes "unknown" | some host ↦ host ]

unfoldable pub client_key : Bool → Request → Bytes
unfolding xff_client header peer
client_key trusted_proxy request =
    if trusted_proxy
    then elim (xff_client (header request (codes "x-forwarded-for"))) [
      | some client ↦ client
      | none ↦ peer request
    ]
    else peer request

lower : Bytes → Bytes
lower [] = []
lower (c ∷ s) = (if leb 65 c && leb c 90 then c + 32 else c) ∷ lower s

unfoldable pub bearer_or_header_token : Request → Bytes → Bytes
unfolding header strip lower
bearer_or_header_token request header_name =
    let supplied = header request header_name in
    let auth = header request (codes "authorization") in
    if not (beq supplied [])
    then strip supplied
    else if beq (take 7 (lower auth)) (codes "bearer ")
    then strip (drop 7 auth)
    else []

is_ascii : Bytes → Bool
is_ascii [] = true
is_ascii (c ∷ s) = ltb c 128 && is_ascii s

-- `hmac.compare_digest` of two texts, which raises on other characters than ASCII
compare_digest : Bytes → Bytes → Option Bool
unfolding is_ascii
compare_digest a b = if is_ascii a && is_ascii b then some (beq a b) else none

unfoldable pub require_operator_auth : Bytes → Request → Reply Bool
unfolding bearer_or_header_token compare_digest
require_operator_auth operator_token request = if beq operator_token [] then ok true else (do
  let supplied = bearer_or_header_token request (codes "x-oversight-operator-token")
  same ← or_crash (compare_digest supplied operator_token)
  require same 401 "operator authentication required")

-- `_is_loopback_host`; `is_loopback` is the answer of the ipaddress module, `none` its `ValueError`.
is_loopback_host : (Bytes → Option Bool) → Option Bytes → Bool
is_loopback_host is_loopback none = false
is_loopback_host is_loopback (some host) = if beq host [] then false else elim (is_loopback host) [
  | some answer ↦ answer
  | none ↦ beq host (codes "localhost") || beq host (codes "testclient")
]

unfoldable pub verify_dns_event_auth : (Bytes → Option Bool) → Bytes → Request → Reply Bool
unfolding bearer_or_header_token compare_digest is_loopback_host
verify_dns_event_auth is_loopback dns_event_secret request =
    if beq dns_event_secret []
    then require (is_loopback_host is_loopback request.client_host) 503
        "OVERSIGHT_DNS_EVENT_SECRET is required for non-loopback DNS event callbacks"
    else (do
      let supplied = bearer_or_header_token request (codes "x-oversight-dns-secret")
      same ← or_crash (compare_digest supplied dns_event_secret)
      require same 401 "invalid DNS event secret")

-- The limiter is charged whether the request is granted or not.
unfoldable pub rate_limit : Bool → Server → Request → Server × Reply Bool
unfolding client_key allow
rate_limit trusted_proxy server request =
    let (bucket, granted) =
      allow server.bucket (client_key trusted_proxy request) request.monotonic in
    (record server { bucket = bucket }, require granted 429 "rate limit exceeded")
