-- ===== src/Bits/Laws.antt =====
-- Bits and bytes are inverse to each other.
use mathlib.Core.Path.{ap₂}
use oversight.Prelude.{
  ℕ, ◌*◌, ◌/◌, ◌<◌, ◌≡◌, refl, List, [], ◌∷◌, Bytes, IsBytes, arith, length, All, All-append, ap,
  ◌∙◌,
}
use oversight.Bits.{bits_below, bits_of, shift_in, pack, bytes_from_bits}

-- A list of zeros and ones.
abbrev pub IsBits : List ℕ → Type 0
IsBits = All (λ b. b < 2)

pub length-bits_of : (bs : Bytes) → length (bits_of bs) ≡ 8 * length bs
unfolding bits_of
length-bits_of [] = refl
length-bits_of (b ∷ bs) = omega (arith, length-bits_of bs)

pub bits_of-IsBits : (bs : Bytes) → IsBits (bits_of bs)
unfolding bits_of
bits_of-IsBits [] = tt
bits_of-IsBits (b ∷ bs) =
    All-append _ (bits_below 8 b) (bits_of bs) (unfold bits_below in omega arith)
      (bits_of-IsBits bs)

byte_again : (b : ℕ) → b < 256 → shift_in 0 (bits_below 8 b) ≡ b
unfolding shift_in bits_below
byte_again b h = omega arith

pack-bits_of : (bs : Bytes) → IsBytes bs → pack (length bs) (bits_of bs) ≡ bs
unfolding pack bits_of
pack-bits_of [] h = refl
pack-bits_of (b ∷ bs) (hb, h) = ap₂ ◌∷◌ (byte_again b hb) (pack-bits_of bs h)

-- `_bytes_from_bits` undoes `_bits_of` on every byte string.
pub bytes_from_bits-bits_of : (bs : Bytes) → IsBytes bs → bytes_from_bits (bits_of bs) ≡ bs
unfolding bytes_from_bits
bytes_from_bits-bits_of bs h =
    let whole : length (bits_of bs) / 8 ≡ length bs = omega (arith, length-bits_of bs) in
    ap (λ n. pack n (bits_of bs)) whole ∙ pack-bits_of bs h
