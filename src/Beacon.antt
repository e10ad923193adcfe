-- ===== src/Beacon.antt =====
-- oversight_core/beacon.py: the beacons of a sealed file. The random bytes of `secrets.token_hex`
-- are an argument, a call's number to its bytes. A text is its code points.
use oversight.Prelude.{
  ℕ, ◌+◌, Option, none, some, List, [], ◌∷◌, ◌++◌, Bytes, codes, beq, if◌then◌else◌,
}
use oversight.Hex.{hex}

pub record Beacon : Type 0 where
  pub token_id : Bytes
  pub kind : Bytes
  pub url : Bytes
  pub dns_name : Option Bytes

-- The part of a host that names the token, under the domain.
abbrev pub beacon_host : Bytes → Bytes → Bytes
beacon_host tid registry_domain = tid ++ (codes ".t." ++ registry_domain)

abbrev web_beacon : Bytes → Bytes → Bytes → Option Beacon
web_beacon tid kind url = some (record { token_id = tid; kind = kind; url = url; dns_name = none })

-- One round of the loop; another kind makes no beacon.
unfoldable pub beacon_of : Bytes → Bytes → Bytes → Option Beacon
beacon_of registry_domain tid kind =
    if beq kind (codes "dns")
    then some (record {
      token_id = tid;
      kind = codes "dns";
      url = codes "dns://" ++ beacon_host tid registry_domain;
      dns_name = some (beacon_host tid registry_domain);
    })
    else if beq kind (codes "http_img")
    then web_beacon tid kind
        (codes "https://b." ++ (registry_domain ++ (codes "/p/" ++ (tid ++ codes ".png"))))
    else if beq kind (codes "ocsp")
    then web_beacon tid kind (codes "https://ocsp." ++ (registry_domain ++ (codes "/r/" ++ tid)))
    else if beq kind (codes "license")
    then web_beacon tid kind (codes "https://lic." ++ (registry_domain ++ (codes "/v/" ++ tid)))
    else none

unfoldable pub add_beacon : Option Beacon → List Beacon → List Beacon
add_beacon none out = out
add_beacon (some b) out = b ∷ out

-- The loop, from call `i` of `_token`: every kind draws a token.
unfoldable pub gen_from : (ℕ → Bytes) → Bytes → ℕ → List Bytes → List Beacon
unfolding beacon_of add_beacon hex
gen_from random registry_domain i [] = []
gen_from random registry_domain i (kind ∷ kinds) =
    add_beacon (beacon_of registry_domain (hex (random i)) kind)
      (gen_from random registry_domain (i + 1) kinds)

abbrev pub default_kinds : List Bytes
default_kinds = codes "dns" ∷ codes "http_img" ∷ codes "ocsp" ∷ codes "license" ∷ []

-- `include or […]`: no list and an empty one are the default.
unfoldable pub kinds_of : Option (List Bytes) → List Bytes
kinds_of none = default_kinds
kinds_of (some []) = default_kinds
kinds_of (some (k ∷ ks)) = k ∷ ks

-- `file_id` and `recipient_id`, which the source does not read, are left out.
unfoldable pub gen_beacons : (ℕ → Bytes) → Bytes → Option (List Bytes) → List Beacon
unfolding gen_from kinds_of
gen_beacons random registry_domain include = gen_from random registry_domain 0 (kinds_of include)
