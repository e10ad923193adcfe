-- ===== src/Base64/RoundTrip.antt =====
-- What was encoded is decoded.
use oversight.Prelude.{
  ℕ, ◌+◌, ◌*◌, ◌/◌, ◌%◌, ◌≡◌, ◌<◌, refl, ap, ◌∙◌, true, some, [], ◌∷◌, Bytes, IsBytes, ltb, arith,
}
use oversight.Base64.{
  digit, b64encode, value, symbol, decode_from, is_ascii, b64decode, next_place, leftover,
  completed, ends,
}

symbol-digit : (d : ℕ) → d < 64 → symbol (digit d) ≡ value d
unfolding symbol digit
symbol-digit d h = ground arith

digit_small : (d : ℕ) → d < 64 → ltb (digit d) 128 ≡ true
unfolding digit
digit_small d h = ground arith

is_ascii-b64encode : (bs : Bytes) → IsBytes bs → is_ascii (b64encode bs) ≡ true
unfolding is_ascii b64encode
is_ascii-b64encode [] h = refl
is_ascii-b64encode (a ∷ []) (ha, h) =
    rw (digit_small (a / 4) (omega (arith, ha)), digit_small (a % 4 * 16) (omega arith)) refl
is_ascii-b64encode (a ∷ b ∷ []) (ha, (hb, h)) =
    rw
      (
        digit_small (a / 4) (omega (arith, ha)),
        digit_small (a % 4 * 16 + b / 16) (omega (arith, hb)),
        digit_small (b % 16 * 4) (omega arith),
      )
      refl
is_ascii-b64encode (a ∷ b ∷ c ∷ rest) (ha, (hb, (hc, h))) =
    rw
      (
        digit_small (a / 4) (omega (arith, ha)),
        digit_small (a % 4 * 16 + b / 16) (omega (arith, hb)),
        digit_small (b % 16 * 4 + c / 64) (omega (arith, hc)),
        digit_small (c % 64) (omega arith),
      )
      (is_ascii-b64encode rest h)

-- A digit takes the decoding one place on.
decode_from-digit :
    (quad left pads d : ℕ) (s rest : Bytes)
    → d < 64
    → decode_from (next_place quad) (leftover quad d) 0 s ≡ some rest
    → decode_from quad left pads (digit d ∷ s) ≡ some (completed quad left d rest)
unfolding decode_from
decode_from-digit quad left pads d s rest h e = rw (symbol-digit d h, e, decode_from) refl

decode_from-b64encode : (bs : Bytes) → IsBytes bs → decode_from 0 0 0 (b64encode bs) ≡ some bs
unfolding decode_from b64encode next_place leftover completed ends symbol
decode_from-b64encode [] h = refl
decode_from-b64encode (a ∷ []) (ha, h) =
    let d = a % 4 * 16 in
    let first : a / 4 * 4 + d / 16 ≡ a = omega arith in
    let tail : decode_from 2 (d % 16) 0 (61 ∷ 61 ∷ []) ≡ some [] = refl in
    decode_from-digit 0 0 0 (a / 4) (digit d ∷ 61 ∷ 61 ∷ []) _ (omega (arith, ha))
      (decode_from-digit 1 (a / 4) 0 d (61 ∷ 61 ∷ []) [] (omega arith) tail)
    ∙ ap (λ x. some (x ∷ [])) first
decode_from-b64encode (a ∷ b ∷ []) (ha, (hb, h)) =
    let d = a % 4 * 16 + b / 16 in
    let e = b % 16 * 4 in
    let first : a / 4 * 4 + d / 16 ≡ a = omega (arith, hb) in
    let second : d % 16 * 16 + e / 4 ≡ b = omega (arith, hb) in
    let tail : decode_from 3 (e % 4) 0 (61 ∷ []) ≡ some [] = refl in
    let both : some ((a / 4 * 4 + d / 16) ∷ (d % 16 * 16 + e / 4) ∷ []) ≡ some (a ∷ b ∷ []) =
      rw (first, second) refl in
    decode_from-digit 0 0 0 (a / 4) (digit d ∷ digit e ∷ 61 ∷ []) _ (omega (arith, ha)) (
      decode_from-digit 1 (a / 4) 0 d (digit e ∷ 61 ∷ []) _ (omega (arith, hb))
        (decode_from-digit 2 (d % 16) 0 e (61 ∷ []) [] (omega arith) tail))
    ∙ both
decode_from-b64encode (a ∷ b ∷ c ∷ rest) (ha, (hb, (hc, h))) =
    let d = a % 4 * 16 + b / 16 in
    let e = b % 16 * 4 + c / 64 in
    let last = digit (c % 64) ∷ b64encode rest in
    let first : a / 4 * 4 + d / 16 ≡ a = omega (arith, hb) in
    let second : d % 16 * 16 + e / 4 ≡ b = omega (arith, hb, hc) in
    let third : e % 4 * 64 + c % 64 ≡ c = omega (arith, hc) in
    let all : some ((a / 4 * 4 + d / 16) ∷ (d % 16 * 16 + e / 4) ∷ (e % 4 * 64 + c % 64) ∷ rest)
        ≡ some (a ∷ b ∷ c ∷ rest) =
      rw (first, second, third) refl in
    decode_from-digit 0 0 0 (a / 4) (digit d ∷ digit e ∷ last) _ (omega (arith, ha)) (
      decode_from-digit 1 (a / 4) 0 d (digit e ∷ last) _ (omega (arith, hb)) (
        decode_from-digit 2 (d % 16) 0 e last _ (omega (arith, hc)) (
          decode_from-digit 3 (e % 4) 0 (c % 64) (b64encode rest) rest (omega arith)
            (decode_from-b64encode rest h))))
    ∙ all

pub b64decode-b64encode : (bs : Bytes) → IsBytes bs → b64decode (b64encode bs) ≡ some bs
unfolding b64decode
b64decode-b64encode bs h = rw (is_ascii-b64encode bs h) (decode_from-b64encode bs h)
