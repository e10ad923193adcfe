-- ===== src/Merkle/Split.antt =====
-- The split point of RFC 6962: the largest power of two below the number of leaves.
use native.Mathlib.Nat.{pow-suc}
use oversight.Prelude.{
  ℕ, zero, suc, ◌+◌, ◌*◌, ◌^◌, ◌≤◌, ◌<◌, ◌≡◌, refl, some, arith, ltb, Bool-cases, inl, inr,
}
use oversight.Merkle.{grow, largest_power_of_2_less_than}

-- `k` is the largest power of two below `n`.
pub record IsSplit (n k : ℕ) : Type 0 where
  pub exponent : ℕ
  pub power : k ≡ 2 ^ exponent
  pub positive : 0 < k
  pub below : k < n
  pub largest : n ≤ k * 2

double : (k e : ℕ) → k ≡ 2 ^ e → k * 2 ≡ 2 ^ suc e
double k e p = simp pow-suc (omega (arith, p))

grow-IsSplit :
    (fuel n k e : ℕ) → k ≡ 2 ^ e → 0 < k → k < n → n ≤ k * 2 + fuel → IsSplit n (grow fuel n k)
unfolding grow
grow-IsSplit zero n k e p pos lt enough = record {
  exponent = e;
  power = p;
  positive = pos;
  below = lt;
  largest = omega arith;
}
grow-IsSplit (suc fuel) n k e p pos lt enough = elim (Bool-cases (ltb (k * 2) n)) [
  | inl more ↦ rw more (
      grow-IsSplit fuel n (k * 2) (suc e) (double k e p) (omega arith) (ground arith) (omega arith))
  | inr last ↦
      rw last
        (record { exponent = e; power = p; positive = pos; below = lt; largest = ground arith })
]

pub largest_power_of_2_less_than_lem :
    (n : ℕ) → 2 ≤ n → (k : ℕ) × (largest_power_of_2_less_than n ≡ some k) × IsSplit n k
unfolding largest_power_of_2_less_than
largest_power_of_2_less_than_lem n h =
    (grow n n 1, ground arith, grow-IsSplit n n 1 0 refl (omega arith) (omega arith) (omega arith))
