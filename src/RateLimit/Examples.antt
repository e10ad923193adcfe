-- ===== src/RateLimit/Examples.antt =====
-- Runs of the limiter, and instances of its theorems.
use oversight.Prelude.{◌+◌, ◌-◌, ◌*◌, ◌≤◌, ◌≡◌, refl, true, false, [], ◌∷◌, codes, arith}
use oversight.RateLimit.{TokenBucket, allow}
use oversight.RateLimit.Bounds.{granted, granted_bound, last_reading}

-- Two requests in a burst, one more each second, one key; a second has ten ticks.
abbrev small : TokenBucket
small = record {
  unit = 10;
  rate = 1;
  burst = 2;
  max_keys = 1;
  state = record { key = codes "a"; tokens = 5; last = 0 } ∷ [];
}

evicts :
    (allow small (codes "b") 7).0.state ≡ record { key = codes "b"; tokens = 10; last = 7 } ∷ []
unfolding allow
evicts = refl

refuses : (allow small (codes "a") 4).1 ≡ false
unfolding allow
refuses = refl

refills : (allow small (codes "a") 5).1 ≡ true
unfolding allow
refills = refl

granted_bound_example :
    granted small (codes "b") (1 ∷ 1 ∷ 1 ∷ 9 ∷ []) * 10
    ≤ 2 * 10 + (last_reading 1 (1 ∷ 1 ∷ 9 ∷ []) - 1) * 1
granted_bound_example =
    granted_bound small (codes "b") 1 (1 ∷ 1 ∷ 9 ∷ []) (omega arith) (omega arith)
