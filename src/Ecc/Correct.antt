-- ===== src/Ecc/Correct.antt =====
-- The code corrects every word in which each group has fewer than half of its bits wrong.
use mathlib.Core.Path.{ap₂}
use oversight.Prelude.{
  ℕ, zero, suc, ◌+◌, ◌-◌, ◌*◌, ◌/◌, ◌≤◌, ◌<◌, ◌≡◌, refl, ap, ◌∙◌, List, [], ◌∷◌, ◌++◌, Bytes,
  IsBytes, length, take, drop, replicate, arith, ltb, ◌==◌, if◌then◌else◌, take-take, drop-take,
  length-drop, length-take, length-replicate, take-append, drop-append, false,
}
use oversight.Bits.{bits_of}
use oversight.Bits.Laws.{IsBits, length-bits_of, bits_of-IsBits}
use oversight.Ecc.{
  repeat_each, encode, fit, recovered_bits, count_errors, count_unanimous, byte_of, bytes_of,
  decode,
}
use oversight.Ecc.Vote.{mismatches, majority_lem, is_split_lem}

-- A received word for the sent bits: whole groups of bits, each with fewer than half of them wrong.
-- What follows the last group is arbitrary.
abbrev pub IsCorrectable : ℕ → List ℕ → List ℕ → Type 0
IsCorrectable repetitions [] coded = Unit
IsCorrectable repetitions (bit ∷ bits) coded =
    (length (take repetitions coded) ≡ repetitions)
    × IsBits (take repetitions coded)
    × (2 * mismatches bit (take repetitions coded) < repetitions)
    × IsCorrectable repetitions bits (drop repetitions coded)

-- The groups with a wrong bit.
abbrev pub damaged : ℕ → List ℕ → List ℕ → ℕ
damaged repetitions [] coded = 0
damaged repetitions (bit ∷ bits) coded =
    (if mismatches bit (take repetitions coded) == 0 then 0 else 1)
    + damaged repetitions bits (drop repetitions coded)

recovered_bits_lem :
    (r : ℕ) (bits coded : List ℕ)
    → IsBits bits
    → IsCorrectable r bits coded
    → recovered_bits (length bits) r coded ≡ bits
unfolding recovered_bits
recovered_bits_lem r [] coded b h = refl
recovered_bits_lem r (bit ∷ bits) coded (b, bs) h =
    ap₂ ◌∷◌ (majority_lem bit (take r coded) b h.1 (omega arith))
      (recovered_bits_lem r bits (drop r coded) bs h.3)

count_errors_lem :
    (r : ℕ) (bits coded : List ℕ)
    → IsBits bits
    → IsCorrectable r bits coded
    → (count_errors (length bits) r coded ≡ damaged r bits coded)
      × (count_unanimous (length bits) r coded + damaged r bits coded ≡ length bits)
unfolding count_errors count_unanimous
count_errors_lem r [] coded b h = (refl, refl)
count_errors_lem r (bit ∷ bits) coded (b, bs) h = ground (
  arith,
  is_split_lem bit (take r coded) b h.1 (omega arith),
  count_errors_lem r bits (drop r coded) bs h.3,
)

bytes_of-bits_of : (bs : Bytes) → IsBytes bs → bytes_of (length bs) (bits_of bs) ≡ bs
unfolding bytes_of bits_of byte_of
bytes_of-bits_of [] h = refl
bytes_of-bits_of (b ∷ bs) (hb, h) = ap₂ ◌∷◌ (omega arith) (bytes_of-bits_of bs h)

take_enough :
    (r n : ℕ) (bits coded : List ℕ)
    → IsCorrectable r bits coded
    → length bits * r ≤ n
    → n ≤ length coded
    → IsCorrectable r bits (take n coded)
take_enough r n [] coded h e l = tt
take_enough r n (bit ∷ bits) coded h e l =
    let first : r ≤ n = grind arith in
    let same = take-take r n coded first in
    let rest = drop-take r n (n - r) coded (omega arith) in
    (
      rw same h.0,
      rw same h.1,
      rw same h.2,
      rw rest (
          take_enough r (n - r) bits (drop r coded) h.3 (grind arith)
            (omega (arith, length-drop r coded))),
    )

IsCorrectable-length :
    (r : ℕ) (bits coded : List ℕ) → IsCorrectable r bits coded → length bits * r ≤ length coded
IsCorrectable-length r [] coded h = omega arith
IsCorrectable-length r (bit ∷ bits) coded h =
    let rest = IsCorrectable-length r bits (drop r coded) h.3 in
    let size = length-take r coded in let left = length-drop r coded in grind arith

damaged-take :
    (r n : ℕ) (bits coded : List ℕ)
    → length bits * r ≤ n
    → damaged r bits (take n coded) ≡ damaged r bits coded
damaged-take r n [] coded e = refl
damaged-take r n (bit ∷ bits) coded e =
    let first : r ≤ n = grind arith in
    rw (take-take r n coded first, drop-take r n (n - r) coded (omega arith))
      (ap (λ d. (if mismatches bit (take r coded) == 0 then 0 else 1) + d)
        (damaged-take r (n - r) bits (drop r coded) (grind arith)))

fit-take :
    (r : ℕ) (bits coded : List ℕ)
    → IsCorrectable r bits coded
    → fit (length bits * r) coded ≡ take (length bits * r) coded
unfolding fit
fit-take r bits coded h =
    let whole : ltb (length coded) (length bits * r) ≡ false =
      ground (arith, IsCorrectable-length r bits coded h) in
    ap
      (λ b.
        take (length bits * r)
          (if b then coded ++ replicate (length bits * r - length coded) 0 else coded))
      whole

-- Every byte string is recovered from every correctable word for it. The error count is the number
-- of groups with a wrong bit, and the other groups are the unanimous ones.
pub decode-IsCorrectable :
    (payload : Bytes) (r : ℕ) (coded : List ℕ)
    → IsBytes payload
    → IsCorrectable r (bits_of payload) coded
    → let d = decode coded (length payload) r in
      (d.payload ≡ payload)
      × (d.errors ≡ damaged r (bits_of payload) coded)
      × (d.unanimous + d.errors ≡ d.groups)
unfolding decode
decode-IsCorrectable payload r coded b h =
    let bits = bits_of payload in
    let size : length payload * 8 ≡ length bits = omega (arith, length-bits_of payload) in
    let clipped = take (length bits * r) coded in
    let h' =
      take_enough r (length bits * r) bits coded h (omega arith)
        (IsCorrectable-length r bits coded h) in
    let zeros_ones = bits_of-IsBits payload in
    let again = recovered_bits_lem r bits clipped zeros_ones h' in
    let counts = count_errors_lem r bits clipped zeros_ones h' in
    let whole : (length bits + 7) / 8 ≡ length payload = omega (arith, length-bits_of payload) in
    rw (size, fit-take r bits coded h, again, whole)
      (
        bytes_of-bits_of payload b,
        counts.0 ∙ damaged-take r (length bits * r) bits coded (omega arith),
        omega arith,
      )

pub clean_group : (bit r : ℕ) → mismatches bit (replicate r bit) ≡ 0
clean_group bit zero = refl
clean_group bit (suc r) = ground (arith, clean_group bit r)

pub bit_group : (bit r : ℕ) → bit < 2 → IsBits (replicate r bit)
bit_group bit zero h = tt
bit_group bit (suc r) h = (h, bit_group bit r h)

repeat_each-IsCorrectable :
    (r : ℕ) (bits : List ℕ)
    → 0 < r
    → IsBits bits
    → IsCorrectable r bits (repeat_each r bits) × (damaged r bits (repeat_each r bits) ≡ 0)
unfolding repeat_each
repeat_each-IsCorrectable r [] p h = (tt, refl)
repeat_each-IsCorrectable r (bit ∷ bits) p (hb, h) =
    let size = length-replicate r bit in
    let rest = repeat_each-IsCorrectable r bits p h in
    rw
      (
        take-append r (replicate r bit) (repeat_each r bits) size,
        drop-append r (replicate r bit) (repeat_each r bits) size,
      )
      (
        (size, bit_group bit r hb, omega (arith, clean_group bit r), rest.0),
        rw clean_group (omega (arith, rest.1)),
      )

-- With at least one repetition, decoding what the encoder wrote gives the payload back with no
-- error and every group unanimous.
decode-encode :
    (payload : Bytes) (r : ℕ)
    → IsBytes payload
    → 0 < r
    → let d = decode (encode payload r) (length payload) r in
      (d.payload ≡ payload) × (d.errors ≡ 0) × (d.unanimous ≡ d.groups)
unfolding encode
decode-encode payload r b p =
    let clean = repeat_each-IsCorrectable r (bits_of payload) p (bits_of-IsBits payload) in
    let d = decode-IsCorrectable payload r (repeat_each r (bits_of payload)) b clean.0 in
    (d.0, d.1 ∙ clean.1, omega (arith, clean.1))
