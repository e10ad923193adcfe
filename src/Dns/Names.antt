-- ===== src/Dns/Names.antt =====
-- Which names are taken for a beacon's.
use mathlib.Core.List.{map-append}
use oversight.Prelude.{
  ℕ, ◌+◌, ◌-◌, ◌/◌, ◌%◌, ◌*◌, ◌≤◌, ◌<◌, ◌≡◌, ◌↔◌, refl, ap, ◌∙◌, sym, Bool, true, false, ◌&&◌,
  Option, none, some, List, [], ◌∷◌, ◌++◌, Bytes, IsBytes, codes, beq, beq_self, beq_iff, map,
  length, take, drop, leb, ◌==◌, ==_iff, if◌then◌else◌, arith, length-append, take-append,
  drop-append, take-append-drop, All, Bool-cases, inl, inr,
}
use oversight.Hex.{hex, hex_digit}
use oversight.Result.{some_inj}
use oversight.Beacon.{Beacon, beacon_host, beacon_of, add_beacon, gen_from, kinds_of, gen_beacons}
use oversight.Dns.{
  rstrip_char, lower_ascii, normal_name, OversightResolver, new_resolver, is_hex_char, all_hex,
  endswith, without_suffix, token_in, token_of,
}

both : (a b : Bool) → (a && b) ≡ true → (a ≡ true) × (b ≡ true)
both a b h = ground arith

without_suffix-append : (p s : Bytes) → without_suffix (p ++ s) s ≡ p
unfolding without_suffix
without_suffix-append p s =
    let e : length (p ++ s) - length s ≡ length p = omega (arith, length-append p s) in
    rw e (take-append (length p) p s refl)

endswith-append : (p s : Bytes) → endswith (p ++ s) s ≡ true
unfolding endswith
endswith-append p s =
    let e : length (p ++ s) - length s ≡ length p = omega (arith, length-append p s) in
    let l : length s ≤ length (p ++ s) = omega (arith, length-append p s) in
    let d = drop-append (length p) p s refl in rw (e, d, beq_self s) (ground arith)

endswith-eq : (q s : Bytes) → endswith q s ≡ true → q ≡ without_suffix q s ++ s
unfolding endswith without_suffix
endswith-eq q s h =
    let (l, b) = both (leb (length s) (length q)) _ h in
    let e = (beq_iff (drop (length q - length s) q) s).0 b in
    sym (take-append-drop (length q - length s) q) ∙ ap (λ r. take (length q - length s) q ++ r) e

taken :
    (a b c : Bool) (p t : Bytes)
    → (if a && (b && c) then some p else none) ≡ some t
    → (a ≡ true) × (b ≡ true) × (c ≡ true) × (p ≡ t)
taken true true true p t h = (refl, refl, refl, some_inj h)
taken true true false p t h = cc
taken true false c p t h = cc
taken false b c p t h = cc

token_in_sound :
    (q s t : Bytes) → token_in q s ≡ some t → (q ≡ t ++ s) × (all_hex t ≡ true) × (length t ≡ 32)
unfolding token_in
token_in_sound q s t h =
    let p = without_suffix q s in
    let (a, b, c, e) = taken (endswith q s) (all_hex p) (length p == 32) p t h in
    (
      endswith-eq q s a ∙ ap (λ r. r ++ s) e,
      sym (ap all_hex e) ∙ b,
      sym (ap length e) ∙ (==_iff (length p) 32).0 c,
    )

token_in_complete :
    (q s t : Bytes) → q ≡ t ++ s → all_hex t ≡ true → length t ≡ 32 → token_in q s ≡ some t
unfolding token_in
token_in_complete q s t e a l =
    rw (e, endswith-append t s, without_suffix-append t s, a, (==_iff (length t) 32).1 l) refl

-- A query is taken for the token's exactly where its name, without dots at its end and in lower
-- case, is the token before the resolver's suffix, and the token is 32 hexadecimal digits in lower
-- case.
pub token_of_iff :
    (resolver : OversightResolver) (name t : Bytes)
    → (token_of resolver name ≡ some t)
      ↔ ((normal_name name ≡ t ++ resolver.token_suffix) × (all_hex t ≡ true) × (length t ≡ 32))
unfolding token_of
token_of_iff resolver name t = (
  token_in_sound (normal_name name) resolver.token_suffix t,
  λ (e, a, l). token_in_complete (normal_name name) resolver.token_suffix t e a l,
)

and_false : (b : Bool) → (b && false) ≡ false
and_false true = refl
and_false false = refl

append-beq_nil : (a b : Bytes) → beq b [] ≡ false → beq (a ++ b) [] ≡ false
append-beq_nil [] b h = h
append-beq_nil (c ∷ a) b h = refl

rstrip_char-append :
    (c : ℕ) (a b : Bytes)
    → beq (rstrip_char c b) [] ≡ false
    → rstrip_char c (a ++ b) ≡ a ++ rstrip_char c b
unfolding rstrip_char
rstrip_char-append c [] b h = refl
rstrip_char-append c (d ∷ a) b h =
    let rest = rstrip_char-append c a b h in
    let e : beq (rstrip_char c (a ++ b)) [] ≡ false =
      rw rest (append-beq_nil a (rstrip_char c b) h) in
    rw (e, and_false (d == c)) (ap (◌∷◌ d) rest)

hex_digit-is_hex_char : (d : ℕ) → d < 16 → is_hex_char (hex_digit d) ≡ true
unfolding hex_digit
hex_digit-is_hex_char d h = ground arith

hex-all_hex : (bs : Bytes) → IsBytes bs → all_hex (hex bs) ≡ true
unfolding hex all_hex
hex-all_hex [] h = refl
hex-all_hex (b ∷ bs) (p, h) =
    rw (hex_digit-is_hex_char (b / 16) (omega arith), hex_digit-is_hex_char (b % 16) (omega arith))
      (hex-all_hex bs h)

length-hex : (bs : Bytes) → length (hex bs) ≡ 2 * length bs
unfolding hex
length-hex [] = refl
length-hex (b ∷ bs) = omega (arith, length-hex bs)

lower_hex : (s : Bytes) → all_hex s ≡ true → map lower_ascii s ≡ s
unfolding all_hex
lower_hex [] h = refl
lower_hex (c ∷ s) h =
    let (a, b) = both (is_hex_char c) (all_hex s) h in
    let e : lower_ascii c ≡ c = ground arith in let rest = lower_hex s b in cc

lowered_nonempty : (s : Bytes) → beq (map lower_ascii s) [] ≡ false → beq s [] ≡ false
lowered_nonempty [] h = h
lowered_nonempty (c ∷ s) h = refl

-- The name of a beacon, as the resolver reads it.
normal_name-beacon_host :
    (tid domain : Bytes)
    → all_hex tid ≡ true
    → beq (normal_name domain) [] ≡ false
    → normal_name (beacon_host tid domain) ≡ tid ++ (codes ".t." ++ normal_name domain)
unfolding normal_name
normal_name-beacon_host tid domain h k =
    let r = rstrip_char b'.' domain in
    let n = lowered_nonempty r k in
    let inner : rstrip_char b'.' (codes ".t." ++ domain) ≡ codes ".t." ++ r =
      rstrip_char-append b'.' (codes ".t.") domain n in
    let outer : rstrip_char b'.' (tid ++ (codes ".t." ++ domain))
        ≡ tid ++ rstrip_char b'.' (codes ".t." ++ domain) =
      rstrip_char-append b'.' tid (codes ".t." ++ domain) (rw inner refl) in
    ap (map lower_ascii) (outer ∙ ap (λ s. tid ++ s) inner)
    ∙ map-append lower_ascii tid (codes ".t." ++ r)
    ∙ ap (λ s. s ++ (codes ".t." ++ map lower_ascii r)) (lower_hex tid h)

-- A query for the name of a beacon that was generated for the resolver's domain is taken for the
-- beacon's token, however the name is written.
abbrev pub IsResolved : OversightResolver → Beacon → Type 0
IsResolved resolver b =
    (host name : Bytes)
    → b.dns_name ≡ some host
    → normal_name name ≡ normal_name host
    → token_of resolver name ≡ some b.token_id

module _ (random : ℕ → Bytes) (draws : (i : ℕ) → IsBytes (random i) × (length (random i) ≡ 16))
    (domain registry_url answer_ip secret : Bytes)
    (named : beq (normal_name domain) [] ≡ false) where
  abbrev resolver : OversightResolver
  resolver = new_resolver domain registry_url answer_ip secret

  host_resolved :
      (i : ℕ) (name : Bytes)
      → normal_name name ≡ normal_name (beacon_host (hex (random i)) domain)
      → token_of resolver name ≡ some (hex (random i))
  unfolding new_resolver
  host_resolved i name e =
      let (bytes, size) = draws i in
      let h = hex-all_hex (random i) bytes in
      (token_of_iff resolver name (hex (random i))).1 (
        e ∙ normal_name-beacon_host (hex (random i)) domain h named,
        h,
        omega (arith, length-hex (random i)),
      )

  beacon_of-IsResolved :
      (i : ℕ) (kind : Bytes) (out : List Beacon)
      → All (IsResolved resolver) out
      → All (IsResolved resolver) (add_beacon (beacon_of domain (hex (random i)) kind) out)
  unfolding beacon_of add_beacon
  beacon_of-IsResolved i kind out h = elim (Bool-cases (beq kind (codes "dns"))) [
    | inl d ↦
        rw d ((λ host name e n. host_resolved i name (n ∙ ap normal_name (sym (some_inj e)))), h)
    | inr d ↦ rw d (elim (Bool-cases (beq kind (codes "http_img"))) [
      | inl p ↦ rw p ((λ host name e n. absurd (cc)), h)
      | inr p ↦ rw p (elim (Bool-cases (beq kind (codes "ocsp"))) [
        | inl q ↦ rw q ((λ host name e n. absurd (cc)), h)
        | inr q ↦ rw q (elim (Bool-cases (beq kind (codes "license"))) [
          | inl r ↦ rw r ((λ host name e n. absurd (cc)), h)
          | inr r ↦ rw r h
        ])
      ])
    ])
  ]

  gen_from-IsResolved :
      (i : ℕ) (kinds : List Bytes) → All (IsResolved resolver) (gen_from random domain i kinds)
  unfolding gen_from
  gen_from-IsResolved i [] = tt
  gen_from-IsResolved i (kind ∷ kinds) =
      beacon_of-IsResolved i kind (gen_from random domain (i + 1) kinds)
        (gen_from-IsResolved (i + 1) kinds)

  -- Every beacon that `gen_beacons` makes for a domain is resolved: a query for its DNS name, in
  -- any case and with any dots behind it, is taken by the resolver of the domain for its token.
  -- The domain is not only dots, and every draw has 16 bytes.
  pub gen_beacons-IsResolved :
      (include : Option (List Bytes))
      → All (IsResolved resolver) (gen_beacons random domain include)
  unfolding gen_beacons
  gen_beacons-IsResolved include = gen_from-IsResolved 0 (kinds_of include)
