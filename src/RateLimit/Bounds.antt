-- ===== src/RateLimit/Bounds.antt =====
-- The limiter bounds its memory, and the requests that it grants.
use oversight.Prelude.{
  ℕ, ◌+◌, ◌-◌, ◌*◌, ◌≤◌, ◌<◌, ◌≡◌, false, some, List, [], ◌∷◌, ◌++◌, Bytes, beq, beq_self, length,
  ltb, if◌then◌else◌, arith, All, All-append, Bool-cases, inl, inr,
}
use oversight.RateLimit.{Entry, TokenBucket, lookup, pop, evict_if_needed, available, stored, allow}

length-evict_if_needed :
    (max_keys : ℕ) (state : List Entry) → length (evict_if_needed max_keys state) ≤ max_keys
unfolding evict_if_needed
length-evict_if_needed max_keys [] = omega arith
length-evict_if_needed max_keys (entry ∷ state) =
    ground (arith, length-evict_if_needed max_keys state)

module _ (P : Entry → Type 0) where
  pop-All : (key : Bytes) (state : List Entry) → All P state → All P (pop key state)
  unfolding pop
  pop-All key [] h = tt
  pop-All key (entry ∷ state) (h, hs) = elim (Bool-cases (beq entry.key key)) [
    | inl here ↦ rw here (pop-All key state hs)
    | inr other ↦ rw other (h, pop-All key state hs)
  ]

  evict-All :
      (max_keys : ℕ) (state : List Entry) → All P state → All P (evict_if_needed max_keys state)
  unfolding evict_if_needed
  evict-All max_keys [] h = tt
  evict-All max_keys (entry ∷ state) (h, hs) =
      elim (Bool-cases (ltb max_keys (length (entry ∷ state)))) [
        | inl full ↦ rw full (evict-All max_keys state hs)
        | inr fits ↦ rw fits (h, hs)
      ]

-- At most `max_keys` keys, each with at most `burst` tokens.
pub record IsBounded (bucket : TokenBucket) : Type 0 where
  pub keys : length bucket.state ≤ bucket.max_keys
  pub tokens : All (λ entry. entry.tokens ≤ bucket.burst * bucket.unit) bucket.state

available-le :
    (bucket : TokenBucket) (key : Bytes) (now : ℕ)
    → available bucket key now ≤ bucket.burst * bucket.unit
unfolding available
available-le bucket key now = ground arith

stored-All :
    (bucket : TokenBucket) (key : Bytes) (tokens now : ℕ)
    → tokens ≤ bucket.burst * bucket.unit
    → All (λ entry. entry.tokens ≤ bucket.burst * bucket.unit) bucket.state
    → All (λ entry. entry.tokens ≤ bucket.burst * bucket.unit) (stored bucket key tokens now)
unfolding stored
stored-All bucket key tokens now h a =
    evict-All _ bucket.max_keys _
      (All-append _ (pop key bucket.state) _ (pop-All _ key bucket.state a) (h, tt))

-- After every request, granted or not, the limiter keeps at most `max_keys` keys, each with at most
-- `burst` tokens, if the tokens were within `burst` before.
pub allow-IsBounded :
    (bucket : TokenBucket) (key : Bytes) (now : ℕ)
    → All (λ entry. entry.tokens ≤ bucket.burst * bucket.unit) bucket.state
    → IsBounded (allow bucket key now).0
unfolding allow
allow-IsBounded bucket key now a =
    let most = available-le bucket key now in
    elim (Bool-cases (ltb (available bucket key now) bucket.unit)) [
      | inl few ↦ rw few (record {
        keys = unfold stored in length-evict_if_needed bucket.max_keys _;
        tokens = stored-All bucket key (available bucket key now) now most a;
      })
      | inr enough ↦ rw enough (record {
        keys = unfold stored in length-evict_if_needed bucket.max_keys _;
        tokens = stored-All bucket key (available bucket key now - bucket.unit) now (omega arith) a;
      })
    ]

pop-Lacks :
    (key : Bytes) (state : List Entry) → All (λ entry. beq entry.key key ≡ false) (pop key state)
unfolding pop
pop-Lacks key [] = tt
pop-Lacks key (entry ∷ state) = elim (Bool-cases (beq entry.key key)) [
  | inl here ↦ rw here (pop-Lacks key state)
  | inr other ↦ rw other (other, pop-Lacks key state)
]

lookup_last :
    (state : List Entry) (newest : Entry)
    → All (λ entry. beq entry.key newest.key ≡ false) state
    → lookup newest.key (state ++ newest ∷ []) ≡ some newest
unfolding lookup
lookup_last [] newest h = ground (arith, beq_self newest.key)
lookup_last (entry ∷ state) newest (h, hs) = ground (arith, lookup_last state newest hs, h)

-- Eviction takes the oldest items, so the newest stays.
lookup_newest :
    (max_keys : ℕ) (state : List Entry) (newest : Entry)
    → 0 < max_keys
    → All (λ entry. beq entry.key newest.key ≡ false) state
    → lookup newest.key (evict_if_needed max_keys (state ++ newest ∷ [])) ≡ some newest
unfolding lookup evict_if_needed
lookup_newest max_keys [] newest p h = ground (arith, p, beq_self newest.key)
lookup_newest max_keys (entry ∷ state) newest p (h, hs) =
    ground (arith, lookup_newest max_keys state newest p hs, h, lookup_last state newest hs)

-- How many of the requests of one key, made at the given times, are granted.
pub granted : TokenBucket → Bytes → List ℕ → ℕ
granted bucket key [] = 0
granted bucket key (now ∷ times) =
    let (bucket', ok) = allow bucket key now in (if ok then 1 else 0) + granted bucket' key times

-- The clock does not run backwards; the last reading.
abbrev pub IsClock : ℕ → List ℕ → Type 0
IsClock from [] = Unit
IsClock from (now ∷ times) = (from ≤ now) × IsClock now times

abbrev pub last_reading : ℕ → List ℕ → ℕ
last_reading from [] = from
last_reading from (now ∷ times) = last_reading now times

from_le_last_reading :
    (from : ℕ) (times : List ℕ) → IsClock from times → from ≤ last_reading from times
from_le_last_reading from [] h = omega arith
from_le_last_reading from (now ∷ times) (h, hs) = omega (arith, from_le_last_reading now times hs)

lookup-stored :
    (bucket : TokenBucket) (key : Bytes) (tokens now : ℕ)
    → 0 < bucket.max_keys
    → lookup key (stored bucket key tokens now)
      ≡ some (record { key = key; tokens = tokens; last = now })
unfolding stored
lookup-stored bucket key tokens now p =
    lookup_newest bucket.max_keys (pop key bucket.state)
      (record { key = key; tokens = tokens; last = now }) p (pop-Lacks key bucket.state)

-- One request: what it costs, and what it leaves.
step :
    (bucket : TokenBucket) (key : Bytes) (now : ℕ) (times : List ℕ)
    → granted bucket key (now ∷ times) ≡ (
        if ltb (available bucket key now) bucket.unit
        then granted
            (record bucket { state = stored bucket key (available bucket key now) now })
            key
            times
        else 1
          + granted
              (record bucket {
                state = stored bucket key (available bucket key now - bucket.unit) now;
              })
              key
              times)
unfolding granted allow
step bucket key now times = elim (Bool-cases (ltb (available bucket key now) bucket.unit)) [
  | inl few ↦ rw few (omega arith)
  | inr enough ↦ rw enough
]

available-refill :
    (bucket : TokenBucket) (key : Bytes) (tokens last now : ℕ)
    → lookup key bucket.state ≡ some (record { key = key; tokens = tokens; last = last })
    → available bucket key now ≤ tokens + (now - last) * bucket.rate
unfolding available
available-refill bucket key tokens last now h = rw (h, available) (omega arith)

granted_from :
    (bucket : TokenBucket) (key : Bytes) (tokens last : ℕ) (times : List ℕ)
    → 0 < bucket.max_keys
    → lookup key bucket.state ≡ some (record { key = key; tokens = tokens; last = last })
    → IsClock last times
    → granted bucket key times * bucket.unit
      ≤ tokens + (last_reading last times - last) * bucket.rate
granted_from bucket key tokens last [] p h c = unfold granted in omega arith
granted_from bucket key tokens last (now ∷ times) p h (c, cs) =
    let end = last_reading now times in
    let later = from_le_last_reading now times cs in
    let apart : end - last ≡ (now - last) + (end - now) = omega arith in
    let sum : (end - last) * bucket.rate ≡ (now - last) * bucket.rate + (end - now) * bucket.rate =
      rw apart (omega arith) in
    let tokens' = available bucket key now in
    let refilled = available-refill bucket key tokens last now h in
    elim (Bool-cases (ltb tokens' bucket.unit)) [
      | inl few ↦
          let rest =
            granted_from (record bucket { state = stored bucket key tokens' now }) key tokens' now
              times p (lookup-stored bucket key tokens' now p) cs in
          rw (step bucket key now times) (rw few (omega (arith, rest, sum, refilled)))
      | inr enough ↦
          let rest =
            granted_from (record bucket { state = stored bucket key (tokens' - bucket.unit) now })
              key (tokens' - bucket.unit) now times p
              (lookup-stored bucket key (tokens' - bucket.unit) now p) cs in
          let paid : bucket.unit ≤ tokens' = ground (arith, enough) in
          rw (step bucket key now times) (rw enough (omega (arith, rest, sum, refilled, paid)))
    ]

-- In any state of a limiter that keeps one key at least, a key is granted, over requests at times
-- that do not run backwards and with no other key between them, at most `burst` requests and `rate` more for each second from the first to the last, however many it
-- makes. Tokens and seconds are counted in `unit` parts.
pub granted_bound :
    (bucket : TokenBucket) (key : Bytes) (first : ℕ) (times : List ℕ)
    → 0 < bucket.max_keys
    → IsClock first times
    → granted bucket key (first ∷ times) * bucket.unit
      ≤ bucket.burst * bucket.unit + (last_reading first times - first) * bucket.rate
granted_bound bucket key first times p cs =
    let full = available-le bucket key first in
    let tokens' = available bucket key first in
    elim (Bool-cases (ltb tokens' bucket.unit)) [
      | inl few ↦
          let rest =
            granted_from (record bucket { state = stored bucket key tokens' first }) key tokens'
              first times p (lookup-stored bucket key tokens' first p) cs in
          rw (step bucket key first times) (rw few (omega (arith, rest, full)))
      | inr enough ↦
          let rest =
            granted_from (record bucket { state = stored bucket key (tokens' - bucket.unit) first })
              key (tokens' - bucket.unit) first times p
              (lookup-stored bucket key (tokens' - bucket.unit) first p) cs in
          let paid : bucket.unit ≤ tokens' = ground (arith, enough) in
          rw (step bucket key first times) (rw enough (omega (arith, rest, full, paid)))
    ]
