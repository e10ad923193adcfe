-- ===== src/Base64.antt =====
-- The base64 that oversight_core/rekor.py takes from Python: `b64encode`, and `b64decode` as it works
-- without `validate`, where characters outside the alphabet are skipped.
pub mod RoundTrip
use oversight.Prelude.{
  ℕ, zero, suc, ◌+◌, ◌-◌, ◌*◌, ◌/◌, ◌%◌, Bool, true, false, ◌&&◌, Option, none, some, List, [], ◌∷◌,
  Bytes, ltb, leb, ◌==◌, if◌then◌else◌,
}

unfoldable pub digit : ℕ → ℕ
digit d =
    if ltb d 26
    then 65 + d
    else if ltb d 52
    then 71 + d
    else if ltb d 62
    then d - 4
    else if d == 62
    then 43
    else 47

-- Three bytes make four digits; what is left at the end is padded.
unfoldable pub b64encode : Bytes → Bytes
unfolding digit
b64encode [] = []
b64encode (a ∷ []) = digit (a / 4) ∷ digit (a % 4 * 16) ∷ 61 ∷ 61 ∷ []
b64encode (a ∷ b ∷ []) = digit (a / 4) ∷ digit (a % 4 * 16 + b / 16) ∷ digit (b % 16 * 4) ∷ 61 ∷ []
b64encode (a ∷ b ∷ c ∷ rest) =
    digit (a / 4)
    ∷ digit (a % 4 * 16 + b / 16)
    ∷ digit (b % 16 * 4 + c / 64)
    ∷ digit (c % 64)
    ∷ b64encode rest

pub data Symbol : Type 0 where
  padding : Symbol
  skipped : Symbol
  value : ℕ → Symbol

unfoldable pub symbol : ℕ → Symbol
symbol c =
    if c == 61
    then padding
    else if leb 65 c && leb c 90
    then value (c - 65)
    else if leb 97 c && leb c 122
    then value (c - 71)
    else if leb 48 c && leb c 57
    then value (c + 4)
    else if c == 43
    then value 62
    else if c == 47
    then value 63
    else skipped

-- The place of the next digit in its group, the bits that are left over, and the byte that a digit
-- completes.
next_place : ℕ → ℕ
next_place quad = if quad == 3 then 0 else suc quad

leftover : ℕ → ℕ → ℕ
leftover quad v =
    if quad == 0 then v else if quad == 1 then v % 16 else if quad == 2 then v % 4 else 0

completed : ℕ → ℕ → ℕ → Bytes → Bytes
completed quad left v rest =
    if quad == 0
    then rest
    else if quad == 1
    then (left * 4 + v / 16) ∷ rest
    else if quad == 2
    then (left * 16 + v / 4) ∷ rest
    else (left * 64 + v) ∷ rest

-- The padding ends the text when it completes a group.
ends : ℕ → ℕ → Bool
ends quad pads = leb 2 quad && leb 4 (quad + suc pads)

unfoldable pub decode_from : ℕ → ℕ → ℕ → Bytes → Option Bytes
unfolding symbol next_place leftover completed ends
decode_from quad left pads [] = if quad == 0 then some [] else none
decode_from quad left pads (c ∷ s) = elim (symbol c) [
  | padding ↦ elim (ends quad pads) [
    | true ↦ some []
    | false ↦ decode_from quad left (if leb 2 quad then suc pads else pads) s
  ]
  | skipped ↦ decode_from quad left pads s
  | value v ↦ elim (decode_from (next_place quad) (leftover quad v) 0 s) [
    | none ↦ none
    | some rest ↦ some (completed quad left v rest)
  ]
]

is_ascii : Bytes → Bool
is_ascii [] = true
is_ascii (c ∷ s) = ltb c 128 && is_ascii s

-- `none` stands for the `ValueError`.
unfoldable pub b64decode : Bytes → Option Bytes
unfolding is_ascii decode_from
b64decode s = if is_ascii s then decode_from 0 0 0 s else none
