-- ===== src/Hex/Laws.antt =====
-- Reading what was written.
use oversight.Prelude.{
  ℕ, ◌+◌, ◌*◌, ◌/◌, ◌%◌, ◌<◌, ◌≡◌, false, some, [], ◌∷◌, refl, Bytes, IsBytes, arith, ap,
}
use oversight.Hex.{hex_digit, hex, digit_of, is_space, fromhex}

digit_of-hex_digit : (d : ℕ) → d < 16 → digit_of (hex_digit d) ≡ some d
unfolding digit_of hex_digit
digit_of-hex_digit d h = ground arith

hex_digit_visible : (d : ℕ) → d < 16 → is_space (hex_digit d) ≡ false
unfolding is_space hex_digit
hex_digit_visible d h = ground arith

pub fromhex-hex : (bs : Bytes) → IsBytes bs → fromhex (hex bs) ≡ some bs
unfolding fromhex hex
fromhex-hex [] h = refl
fromhex-hex (b ∷ bs) (hb, h) =
    let high : b / 16 < 16 = omega arith in
    let low : b % 16 < 16 = omega arith in
    let whole : b / 16 * 16 + b % 16 ≡ b = omega arith in
    rw
      (
        hex_digit_visible (b / 16) high,
        digit_of-hex_digit (b / 16) high,
        digit_of-hex_digit (b % 16) low,
        fromhex-hex bs h,
      )
      (ap (λ x. some (x ∷ bs)) whole)
