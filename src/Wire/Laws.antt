-- ===== src/Wire/Laws.antt =====
-- A packed word is read back.
use oversight.Prelude.{
  ℕ, ◌+◌, ◌*◌, ◌^◌, ◌<◌, ◌≡◌, refl, ap, some, [], ◌∷◌, Bytes, IsBytes, length, arith,
}
use oversight.Wire.{u32_bytes, pack_u32, unpack_u32}

pub pack_u32_lem : (n : ℕ) → n < 2 ^ 32 → pack_u32 n ≡ some (u32_bytes n)
unfolding pack_u32
pack_u32_lem n h = ground arith

pub unpack_u32-u32_bytes : (n : ℕ) → n < 2 ^ 32 → unpack_u32 (u32_bytes n) ≡ some n
unfolding unpack_u32 u32_bytes
unpack_u32-u32_bytes n h = ap some (omega arith)

pub length-u32_bytes : (n : ℕ) → length (u32_bytes n) ≡ 4
unfolding u32_bytes
length-u32_bytes n = refl

-- What was unpacked is packed again.
pub u32_bytes-unpack_u32 :
    (word : Bytes) (n : ℕ)
    → IsBytes word
    → unpack_u32 word ≡ some n
    → (u32_bytes n ≡ word) × (n < 2 ^ 32)
unfolding unpack_u32 u32_bytes
u32_bytes-unpack_u32 [] n b h = absurd (cc)
u32_bytes-unpack_u32 (w ∷ []) n b h = absurd (cc)
u32_bytes-unpack_u32 (w ∷ x ∷ []) n b h = absurd (cc)
u32_bytes-unpack_u32 (w ∷ x ∷ y ∷ []) n b h = absurd (cc)
u32_bytes-unpack_u32 (w ∷ x ∷ y ∷ z ∷ []) n (p, (q, (r, (s, _)))) h =
    let e : w * 16777216 + x * 65536 + y * 256 + z ≡ n = cc in
    (ground (arith, e, p, q, r, s), omega arith)
u32_bytes-unpack_u32 (w ∷ x ∷ y ∷ z ∷ more ∷ rest) n b h = absurd (cc)
