-- ===== src/Bits.antt =====
-- oversight_core/watermark.py, semantic.py: bytes to bits, most significant bit first, and back.
pub mod Laws
use oversight.Prelude.{
  ℕ, zero, suc, ◌+◌, ◌*◌, ◌/◌, ◌%◌, ◌^◌, List, [], ◌∷◌, ◌++◌, Bytes, length, take, drop,
}

-- `(byte >> (7 - i)) & 1` for `i` from `8 - n` to 7.
bits_below : ℕ → ℕ → List ℕ
bits_below zero byte = []
bits_below (suc n) byte = ((byte / 2 ^ n) % 2) ∷ bits_below n byte

unfoldable pub bits_of : Bytes → List ℕ
unfolding bits_below
bits_of [] = []
bits_of (byte ∷ rest) = bits_below 8 byte ++ bits_of rest

-- `b = (b << 1) | (bit & 1)` over the bits of one byte.
shift_in : ℕ → List ℕ → ℕ
shift_in b [] = b
shift_in b (bit ∷ bits) = shift_in (b * 2 + bit % 2) bits

-- The loop over whole bytes: `n` of them are left.
pack : ℕ → List ℕ → Bytes
pack zero bits = []
pack (suc n) bits = shift_in 0 (take 8 bits) ∷ pack n (drop 8 bits)

unfoldable pub bytes_from_bits : List ℕ → Bytes
unfolding pack shift_in
bytes_from_bits bits = pack (length bits / 8) bits
