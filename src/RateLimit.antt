-- ===== src/RateLimit.antt =====
-- registry/server.py: `TokenBucket`, the rate limiter with a bounded number of keys. The source
-- counts tokens and seconds in floats; here time is counted in ticks of which `unit` make a second,
-- and tokens in parts of which `unit` make one, so the arithmetic is exact.
pub mod Bounds
pub mod Examples
use oversight.Prelude.{
  ℕ, zero, suc, ◌+◌, ◌-◌, ◌*◌, Bool, true, false, Option, none, some, List, [], ◌∷◌, ◌++◌, Bytes,
  beq, length, min, ltb, if◌then◌else◌,
}

-- An item of the ordered dictionary: the tokens left, and when they were counted.
pub record Entry : Type 0 where
  pub key : Bytes
  pub tokens : ℕ
  pub last : ℕ

pub record TokenBucket : Type 0 where
  pub unit : ℕ
  pub rate : ℕ
  pub burst : ℕ
  pub max_keys : ℕ
  pub state : List Entry

lookup : Bytes → List Entry → Option Entry
lookup key [] = none
lookup key (entry ∷ state) = if beq entry.key key then some entry else lookup key state

-- `self._state.pop(key)`, without its value
pop : Bytes → List Entry → List Entry
pop key [] = []
pop key (entry ∷ state) =
    let rest = pop key state in if beq entry.key key then rest else entry ∷ rest

-- `while len(self._state) > self.max_keys: self._state.popitem(last=False)`
evict_if_needed : ℕ → List Entry → List Entry
evict_if_needed max_keys [] = []
evict_if_needed max_keys (entry ∷ state) =
    let rest = evict_if_needed max_keys state in
    if ltb max_keys (length (entry ∷ state)) then rest else entry ∷ state

-- The tokens that a key has at `now`.
available : TokenBucket → Bytes → ℕ → ℕ
unfolding lookup
available bucket key now = elim (lookup key bucket.state) [
  | none ↦ min (bucket.burst * bucket.unit) (bucket.burst * bucket.unit + (now - now) * bucket.rate)
  | some entry ↦ min (bucket.burst * bucket.unit) (entry.tokens + (now - entry.last) * bucket.rate)
]

-- The dictionary after the key's item is written behind the others.
stored : TokenBucket → Bytes → ℕ → ℕ → List Entry
unfolding pop evict_if_needed
stored bucket key tokens now =
    evict_if_needed bucket.max_keys
      (pop key bucket.state ++ record { key = key; tokens = tokens; last = now } ∷ [])

unfoldable pub allow : TokenBucket → Bytes → ℕ → TokenBucket × Bool
unfolding available stored
allow bucket key now =
    let tokens = available bucket key now in
    if ltb tokens bucket.unit
    then (record bucket { state = stored bucket key tokens now }, false)
    else (record bucket { state = stored bucket key (tokens - bucket.unit) now }, true)
