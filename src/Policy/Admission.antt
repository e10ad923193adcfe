-- ===== src/Policy/Admission.antt =====
-- What `check_policy` admits.
use oversight.Prelude.{
  ◌≡◌, ◌⊎◌, ◌↔◌, inl, inr, refl, ap, Bool, true, Option, none, some, [], Bytes, beq, beq_iff, codes,
  ℤ, leb_ℤ, arith, Bool-cases,
}
use oversight.Json.{is_text, Json, Fields, null, int, str, dict, get, get_or, truthy}
use oversight.Manifest.{Manifest}
use oversight.Result.{policy_violation, Result, ok, raised, ◌>>=◌, guard, guard-eq-ok}
use oversight.Policy.{
  PolicyContext, check_policy, not_expired, released, in_jurisdiction, policy_field, policy_dict,
  int_of,
}

-- A field that is missing, or an integer.
abbrev pub number : Option ℤ → Option Json
number none = none
number (some z) = some (int z)

-- The bounds that the fields set.
abbrev pub NotAfter : Option ℤ → ℤ → Type 0
NotAfter none now = Unit {0}
NotAfter (some limit) now = leb_ℤ now limit ≡ true

abbrev pub NotBefore : Option ℤ → ℤ → Type 0
NotBefore none now = Unit {0}
NotBefore (some start) now = leb_ℤ start now ≡ true

abbrev value_of : Option Json → Json
value_of none = null
value_of (some v) = v

get_or_lem :
    (name : Bytes) (fs : Fields) (v : Option Json)
    → get name fs ≡ v
    → get_or name null fs ≡ value_of v
unfolding get_or
get_or_lem name fs none h = ground (arith, h)
get_or_lem name fs (some v) h = ground (arith, h)

policy_field_lem :
    (name : Bytes) (m : Manifest) (fs : Fields) (v : Option Json)
    → m.policy ≡ dict fs
    → get name fs ≡ v
    → policy_field name m ≡ ok (value_of v)
unfolding policy_field policy_dict
policy_field_lem name m fs v p h = rw p (ap ok (get_or_lem name fs v h))

guard_iff : (b : Bool) → (guard b policy_violation ≡ ok tt) ↔ (b ≡ true)
guard_iff b = (λ h. guard-eq-ok b policy_violation h, λ h. rw h refl)

not_expired_iff :
    (limit : Option ℤ) (now : ℤ)
    → (not_expired (value_of (number limit)) now ≡ ok tt) ↔ NotAfter limit now
unfolding not_expired int_of
not_expired_iff none now = (λ h. tt, λ h. refl)
not_expired_iff (some z) now = guard_iff (leb_ℤ now z)

released_iff :
    (start : Option ℤ) (now : ℤ)
    → (released (value_of (number start)) now ≡ ok tt) ↔ NotBefore start now
unfolding released int_of
released_iff none now = (λ h. tt, λ h. refl)
released_iff (some z) now = guard_iff (leb_ℤ z now)

in_jurisdiction_iff :
    (place : Bytes) (ctx : PolicyContext)
    → (in_jurisdiction (str place) (some ctx) ≡ true)
      ↔ ((place ≡ []) ⊎ ((place ≡ codes "GLOBAL") ⊎ (place ≡ ctx.jurisdiction)))
unfolding in_jurisdiction truthy is_text
in_jurisdiction_iff place ctx = (
  λ h. elim (Bool-cases (beq place [])) [
    | inl e ↦ inl ((beq_iff place []).0 e)
    | inr e ↦ elim (Bool-cases (beq place (codes "GLOBAL"))) [
      | inl f ↦ inr (inl ((beq_iff place (codes "GLOBAL")).0 f))
      | inr f ↦ inr (inr ((beq_iff place ctx.jurisdiction).0 (ground (arith, e, f, h))))
    ]
  ],
  λ h. elim h [
    | inl e ↦ rw ((beq_iff place []).1 e) refl
    | inr (inl e) ↦ ground (arith, (beq_iff place (codes "GLOBAL")).1 e)
    | inr (inr e) ↦ ground (arith, (beq_iff place ctx.jurisdiction).1 e)
  ],
)

>>-iff :
    (first second : Result (Unit {0}))
    → ((first >>= λ u. second) ≡ ok tt) ↔ ((first ≡ ok tt) × (second ≡ ok tt))
>>-iff (ok u) second = (λ h. (refl, h), λ h. h.1)
>>-iff (raised e) second = (λ h. absurd (cc), λ h. absurd (cc))

-- A policy whose bounds are integers or missing, and whose jurisdiction is a text, is admitted in a
-- context exactly when the time is neither after `not_after` nor before `not_before`, and the text
-- is empty, `GLOBAL`, or the context's jurisdiction.
pub check_policy_iff :
    (m : Manifest) (fs : Fields) (ctx : PolicyContext) (now : ℤ) (limit start : Option ℤ)
    (place : Bytes)
    → m.policy ≡ dict fs
    → get (codes "not_after") fs ≡ number limit
    → get (codes "not_before") fs ≡ number start
    → get (codes "jurisdiction") fs ≡ some (str place)
    → (check_policy m (some ctx) now ≡ ok tt) ↔ (
        NotAfter limit now
        × NotBefore start now
        × ((place ≡ []) ⊎ ((place ≡ codes "GLOBAL") ⊎ (place ≡ ctx.jurisdiction))))
unfolding check_policy
check_policy_iff m fs ctx now limit start place p a b c =
    let na = policy_field_lem (codes "not_after") m fs (number limit) p a in
    let nb = policy_field_lem (codes "not_before") m fs (number start) p b in
    let at = policy_field_lem (codes "jurisdiction") m fs (some (str place)) p c in
    let within = not_expired_iff limit now in
    let out = released_iff start now in
    let local = in_jurisdiction_iff place ctx in
    let last = guard_iff (in_jurisdiction (str place) (some ctx)) in
    let inner =
      >>-iff (released (value_of (number start)) now)
        (guard (in_jurisdiction (str place) (some ctx)) policy_violation) in
    let outer = >>-iff (not_expired (value_of (number limit)) now) (
      released (value_of (number start)) now >>= λ (u : Unit {0}).
      guard (in_jurisdiction (str place) (some ctx)) policy_violation) in
    rw (na, nb, at)
      (
        λ h.
            let (e, h1) = outer.0 h in
            let (f, h2) = inner.0 h1 in (within.0 e, out.0 f, local.0 (last.0 h2)),
        λ h. outer.1 (within.1 h.0, inner.1 (out.1 h.1, last.1 (local.1 h.2))),
      )
