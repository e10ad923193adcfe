-- ===== src/Hex.antt =====
-- `bytes.hex` and `bytes.fromhex` of Python, which the log's records and the keys are written with.
pub mod Laws
use oversight.Prelude.{
  ℕ, ◌+◌, ◌-◌, ◌*◌, ◌/◌, ◌%◌, Bool, true, false, ◌&&◌, ◌||◌, Option, none, some, ◌>>=◌, List, [],
  ◌∷◌, Bytes, ltb, leb, ◌==◌, if◌then◌else◌,
}

unfoldable pub hex_digit : ℕ → ℕ
hex_digit d = if ltb d 10 then 48 + d else 87 + d

unfoldable pub hex : Bytes → Bytes
unfolding hex_digit
hex [] = []
hex (b ∷ bs) = hex_digit (b / 16) ∷ hex_digit (b % 16) ∷ hex bs

digit_of : ℕ → Option ℕ
digit_of c =
    if leb 48 c && leb c 57
    then some (c - 48)
    else if leb 97 c && leb c 102
    then some (c - 87)
    else if leb 65 c && leb c 70
    then some (c - 55)
    else none

-- White space is skipped between two bytes, not within one.
is_space : ℕ → Bool
is_space c = c == 32 || (leb 9 c && leb c 13)

-- `none` is the `ValueError`.
unfoldable pub fromhex : Bytes → Option Bytes
unfolding digit_of is_space
fromhex [] = some []
fromhex (c ∷ []) = if is_space c then some [] else none
fromhex (c ∷ d ∷ text) =
    let spaced = fromhex (d ∷ text) in
    let rest = fromhex text in
    if is_space c
    then spaced
    else do high ← digit_of c; low ← digit_of d; bs ← rest; some ((high * 16 + low) ∷ bs)
