-- ===== src/Jcs/Digits.antt =====
-- The decimal digits that the serializer writes are read back, and none of them is a space.
use oversight.Prelude.{
  ℕ, zero, suc, ◌+◌, ◌*◌, ◌-◌, ◌/◌, ◌%◌, ◌<◌, ◌≡◌, sym, ap, ◌∙◌, inl, inr, [], ◌∷◌, Bytes, pos, ltb,
  Bool-cases, arith,
}
use oversight.Jcs.{decimal_before, decimal}

value_from : ℕ → Bytes → ℕ
value_from n [] = n
value_from n (c ∷ s) = value_from (n * 10 + (c - 48)) s

value_from-decimal_before :
    (fuel n : ℕ) (rest : Bytes)
    → n < fuel
    → value_from 0 (decimal_before fuel n rest) ≡ value_from n rest
unfolding value_from decimal_before
value_from-decimal_before zero n rest h = absurd (omega (arith, h))
value_from-decimal_before (suc fuel) n rest h = elim (Bool-cases (ltb n 10)) [
  | inl t ↦
      let digit : 0 * 10 + (48 + n - 48) ≡ n = omega arith in
      rw (t, decimal_before) (ap (λ k. value_from k rest) digit)
  | inr f ↦
      let less : n / 10 < fuel = ground (arith, h, f) in
      let whole : n / 10 * 10 + (48 + n % 10 - 48) ≡ n = omega arith in
      rw (f, decimal_before)
        (value_from-decimal_before fuel (n / 10) ((48 + n % 10) ∷ rest) less
          ∙ ap (λ k. value_from k rest) whole)
]

pub decimal_inj : (n m : ℕ) → decimal (pos n) ≡ decimal (pos m) → n ≡ m
unfolding decimal value_from
decimal_inj n m h =
    sym (value_from-decimal_before (suc n) n [] (omega arith))
    ∙ ap (value_from 0) h
    ∙ value_from-decimal_before (suc m) m [] (omega arith)

-- No space among the characters.
abbrev pub Dense : Bytes → Type 0
Dense [] = Unit {0}
Dense (c ∷ s) = (32 < c) × Dense s

decimal_before-Dense : (fuel n : ℕ) (rest : Bytes) → Dense rest → Dense (decimal_before fuel n rest)
unfolding decimal_before
decimal_before-Dense zero n rest h = h
decimal_before-Dense (suc fuel) n rest h = elim (Bool-cases (ltb n 10)) [
  | inl t ↦ rw (t, decimal_before) (omega arith, h)
  | inr f ↦
      rw (f, decimal_before)
        (decimal_before-Dense fuel (n / 10) ((48 + n % 10) ∷ rest) (omega arith, h))
]

pub decimal-Dense : (n : ℕ) → Dense (decimal (pos n))
unfolding decimal
decimal-Dense n = decimal_before-Dense (suc n) n [] tt
