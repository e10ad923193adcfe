-- ===== src/Ecc/Verify.antt =====
-- What `verify_with_ecc` says of a text whose choices are exactly those of the candidate.
use oversight.Prelude.{
  ℕ, zero, suc, ◌-◌, ◌*◌, ◌≤◌, ◌<◌, ◌≡◌, ◌≢◌, refl, true, false, some, List, [], ◌∷◌, Bytes,
  IsBytes, beq, beq_iff, length, replicate, take, drop, arith, leb, All, All-append,
  length-replicate, Bool-cases, inl, inr, ap, ◌∙◌, sym,
}
use oversight.Bits.{bits_of}
use oversight.Bits.Laws.{length-bits_of}
use oversight.Variants.{mark_id_to_variant_sequence}
use oversight.Ecc.{agreement, decode, judge, Verdict, verify_with_ecc}
use oversight.Ecc.Correct.{IsCorrectable, decode-IsCorrectable, clean_group, bit_group}

agreement_self : (c : ℕ) (xs : List ℕ) → agreement c xs xs ≡ replicate (length xs) 1
unfolding agreement
agreement_self c [] = refl
agreement_self c (x ∷ xs) = ground (arith, agreement_self c xs)

take-replicate : (r m x : ℕ) → r ≤ m → take r (replicate m x) ≡ replicate r x
take-replicate zero m x h = refl
take-replicate (suc r) zero x h = absurd (omega arith)
take-replicate (suc r) (suc m) x h = ap (◌∷◌ x) (take-replicate r m x (omega arith))

drop-replicate : (r m x : ℕ) → drop r (replicate m x) ≡ replicate (m - r) x
drop-replicate zero m x = let e : m ≡ m - 0 = omega arith in ap (λ n. replicate n x) e
drop-replicate (suc r) zero x = let e : 0 ≡ 0 - suc r = omega arith in ap (λ n. replicate n x) e
drop-replicate (suc r) (suc m) x =
    let e : m - r ≡ suc m - suc r = omega arith in drop-replicate r m x ∙ ap (λ n. replicate n x) e

ones-IsCorrectable :
    (r m : ℕ) (bits : List ℕ)
    → 0 < r
    → All (λ b. b ≡ 1) bits
    → length bits * r ≤ m
    → IsCorrectable r bits (replicate m 1)
ones-IsCorrectable r m [] p a h = tt
ones-IsCorrectable r m (bit ∷ bits) p (e, a) h =
    let first : r ≤ m = grind arith in
    rw (take-replicate r m 1 first, drop-replicate r m 1)
      (
        length-replicate r 1,
        bit_group 1 r (omega arith),
        rw (e, clean_group 1 r) (omega arith),
        ones-IsCorrectable r (m - r) bits p a (grind arith),
      )

bits_of-ones : (n : ℕ) → All (λ b. b ≡ 1) (bits_of (replicate n 255))
unfolding bits_of
bits_of-ones zero = tt
bits_of-ones (suc n) =
    All-append _ (replicate 8 1) (bits_of (replicate n 255)) (omega arith) (bits_of-ones n)

IsBytes-replicate : (n : ℕ) → IsBytes (replicate n 255)
IsBytes-replicate zero = tt
IsBytes-replicate (suc n) = (omega arith, IsBytes-replicate n)

-- The decoder reads a long enough run of ones as bytes 255.
decode_ones :
    (n r m : ℕ) → 0 < r → n * 8 * r ≤ m → (decode (replicate m 1) n r).payload ≡ replicate n 255
decode_ones n r m p h =
    let ones : Bytes = replicate n 255 in
    let size = length-replicate {A = ℕ} n 255 in
    let bits = length-bits_of ones in
    let enough : length (bits_of ones) * r ≤ m = rw bits (rw size (grind arith)) in
    rw size at (
      (decode-IsCorrectable ones r (replicate m 1) (IsBytes-replicate n)
        (ones-IsCorrectable r m (bits_of ones) p (bits_of-ones n) enough)).0)

beq-ne : (xs ys : Bytes) → xs ≢ ys → beq xs ys ≡ false
beq-ne xs ys h = elim (Bool-cases (beq xs ys)) [
  | inl e ↦ absurd (h ((beq_iff xs ys).0 e))
  | inr e ↦ e
]

judge_ones :
    (mark_id : Bytes) (r m : ℕ)
    → 0 < r
    → mark_id ≢ replicate (length mark_id) 255
    → length mark_id * 8 * r ≤ m
    → ((judge (replicate m 1) mark_id r).matches ≡ false)
      × ((judge (replicate m 1) mark_id r).mark_id ≡ replicate (length mark_id) 255)
unfolding judge
judge_ones mark_id r m p other long =
    let size = length-replicate {A = ℕ} m 1 in
    let decodes : leb (length mark_id * 8 * r) (length {A = ℕ} (replicate m 1)) ≡ true =
      ground arith in
    let ones = decode_ones (length mark_id) r m p long in
    let differs : beq (replicate (length mark_id) 255) mark_id ≡ false =
      beq-ne _ _ (λ e. other (sym e)) in
    rw decodes (rw ones (rw differs (refl, refl)))

empty_mark : (mark_id : Bytes) → length mark_id ≡ 0 → mark_id ≡ replicate (length mark_id) 255
empty_mark [] h = refl
empty_mark (b ∷ bs) h = absurd (omega arith)

module _ (sha256 : Bytes → Bytes) where
  -- A text that is long enough to be decoded and makes every choice as the candidate's mark says is
  -- refused, for every mark but bytes 255, and the mark reported is bytes 255.
  pub verify_with_ecc_long_copy :
      (mark_id : Bytes) (c r : ℕ) (choices : List ℕ)
      → 0 < r
      → mark_id ≢ replicate (length mark_id) 255
      → length mark_id * 8 * r ≤ length choices
      → mark_id_to_variant_sequence sha256 mark_id (length choices) c ≡ some choices
      → (v : Verdict) × (verify_with_ecc sha256 choices mark_id c r ≡ some v)
        × (v.matches ≡ false)
        × (v.mark_id ≡ replicate (length mark_id) 255)
  unfolding verify_with_ecc
  verify_with_ecc_long_copy mark_id c r [] p other long derived =
      absurd (other (empty_mark mark_id (grind arith)))
  verify_with_ecc_long_copy mark_id c r (x ∷ xs) p other long derived =
      let all = length (x ∷ xs) in
      let same = agreement_self c (x ∷ xs) in
      let verdict = judge_ones mark_id r all p other long in
      (
        judge (replicate all 1) mark_id r,
        rw derived (ap (λ received. some (judge received mark_id r)) same),
        verdict.0,
        verdict.1,
      )
