-- ===== src/Ecc/Vote.antt =====
-- One group of repeated bits: the majority survives fewer than half wrong bits.
use oversight.Prelude.{
  ℕ, zero, suc, ◌+◌, ◌*◌, ◌<◌, ◌≡◌, not, List, [], ◌∷◌, length, arith, ◌==◌, if◌then◌else◌, refl,
}
use oversight.Bits.Laws.{IsBits}
use oversight.Ecc.{sum, majority, is_split}

-- The bits of a group that differ from the bit that was sent.
abbrev pub mismatches : ℕ → List ℕ → ℕ
mismatches bit [] = 0
mismatches bit (x ∷ xs) = (if x == bit then 0 else 1) + mismatches bit xs

sum-mismatches_zero : (g : List ℕ) → IsBits g → sum g ≡ mismatches 0 g
unfolding sum
sum-mismatches_zero [] h = refl
sum-mismatches_zero (x ∷ g) (hx, h) = ground (arith, sum-mismatches_zero g h)

sum-mismatches_one : (g : List ℕ) → IsBits g → sum g + mismatches 1 g ≡ length g
unfolding sum
sum-mismatches_one [] h = refl
sum-mismatches_one (x ∷ g) (hx, h) = ground (arith, sum-mismatches_one g h)

pub majority_lem :
    (bit : ℕ) (g : List ℕ) → bit < 2 → IsBits g → 2 * mismatches bit g < length g → majority g ≡ bit
unfolding majority
majority_lem zero g b h few = ground (arith, sum-mismatches_zero g h)
majority_lem (suc zero) g b h few = ground (arith, sum-mismatches_one g h)
majority_lem (suc (suc n)) g b h few = absurd (omega arith)

pub is_split_lem :
    (bit : ℕ) (g : List ℕ)
    → bit < 2
    → IsBits g
    → 2 * mismatches bit g < length g
    → is_split g ≡ not (mismatches bit g == 0)
unfolding is_split
is_split_lem zero g b h few = ground (arith, sum-mismatches_zero g h)
is_split_lem (suc zero) g b h few = ground (arith, sum-mismatches_one g h)
is_split_lem (suc (suc n)) g b h few = absurd (omega arith)
