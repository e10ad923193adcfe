-- ===== src/Wire.antt =====
-- Big-endian words of four bytes: `struct.pack(">I", n)`, `n.to_bytes(4, "big")` and
-- `struct.unpack(">I", data)`.
pub mod Laws
use oversight.Prelude.{
  ℕ, ◌+◌, ◌*◌, ◌/◌, ◌%◌, ◌^◌, Option, none, some, [], ◌∷◌, Bytes, ltb, if◌then◌else◌,
}

-- The four bytes of a number below 2 ^ 32.
unfoldable pub u32_bytes : ℕ → Bytes
u32_bytes n = n / 16777216 % 256 ∷ n / 65536 % 256 ∷ n / 256 % 256 ∷ n % 256 ∷ []

-- `none` is `struct.error`, or `OverflowError`.
unfoldable pub pack_u32 : ℕ → Option Bytes
unfolding u32_bytes
pack_u32 n = if ltb n (2 ^ 32) then some (u32_bytes n) else none

-- Four bytes are read. `none` is `struct.error`.
unfoldable pub unpack_u32 : Bytes → Option ℕ
unpack_u32 (a ∷ b ∷ c ∷ d ∷ []) = some (a * 16777216 + b * 65536 + c * 256 + d)
unpack_u32 _ = none
