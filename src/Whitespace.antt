-- ===== src/Whitespace.antt =====
-- oversight_core/watermark.py, layer L2: a mark as trailing spaces and tabs. A text is the list of
-- its code points.
pub mod Lines
pub mod RoundTrip
use oversight.Prelude.{
  ℕ, zero, suc, ◌+◌, ◌*◌, ◌-◌, Bool, true, false, not, ◌&&◌, ◌||◌, Option, none, some, List, [],
  ◌∷◌, ◌++◌, Bytes, length, take, replicate, min, ltb, leb, ◌==◌, if◌then◌else◌,
}
use oversight.Bits.{bits_of, bytes_from_bits}

abbrev pub newline : ℕ
newline = 10

abbrev pub space : ℕ
space = 32

abbrev pub tab : ℕ
tab = 9

-- `text.split("\n")`; the second argument is the line so far.
unfoldable pub cut : List ℕ → List ℕ → List (List ℕ)
cut line [] = line ∷ []
cut line (ch ∷ text) = elim (ch == newline) [
  | true ↦ line ∷ cut [] text
  | false ↦ cut (line ++ ch ∷ []) text
]

unfoldable pub split_lines : List ℕ → List (List ℕ)
unfolding cut
split_lines text = cut [] text

-- `"\n".join(lines)`
unfoldable pub join_lines : List (List ℕ) → List ℕ
join_lines [] = []
join_lines (line ∷ []) = line
join_lines (line ∷ next ∷ lines) = line ++ newline ∷ join_lines (next ∷ lines)

-- The characters that `str.rstrip` takes off.
pub is_space : ℕ → Bool
is_space ch =
    (leb 9 ch && leb ch 13)
    || (leb 28 ch && leb ch 32)
    || ch == 0x85
    || ch == 0xa0
    || ch == 0x1680
    || (leb 0x2000 ch && leb ch 0x200a)
    || ch == 0x2028
    || ch == 0x2029
    || ch == 0x202f
    || ch == 0x205f
    || ch == 0x3000

pub last_char : List ℕ → Option ℕ
last_char [] = none
last_char (ch ∷ []) = some ch
last_char (ch ∷ next ∷ line) = last_char (next ∷ line)

-- `line.rstrip() == line`
unfoldable pub is_bare : List ℕ → Bool
unfolding is_space last_char
is_bare line = elim (last_char line) [ none ↦ true | some ch ↦ not (is_space ch) ]

unfoldable pub suffix : ℕ → ℕ
suffix bit = if bit == 0 then space else tab

-- The loop over the lines; the bits that are left stand for `bi`.
unfoldable pub mark_lines : List ℕ → List (List ℕ) → List (List ℕ)
mark_lines bits [] = []
mark_lines [] (line ∷ lines) = line ∷ mark_lines [] lines
mark_lines (bit ∷ bits) (line ∷ lines) = elim (is_bare line) [
  | true ↦ (line ++ suffix bit ∷ []) ∷ mark_lines bits lines
  | false ↦ line ∷ mark_lines (bit ∷ bits) lines
]

unfoldable pub embed_ws : List ℕ → Bytes → List ℕ
unfolding split_lines join_lines is_bare mark_lines suffix
embed_ws text mark_id = join_lines (mark_lines (bits_of mark_id) (split_lines text))

-- The bit that a line carries.
pub line_bit : List ℕ → Option ℕ
unfolding last_char
line_bit line = elim (last_char line) [
  | none ↦ none
  | some ch ↦ if ch == space then some 0 else if ch == tab then some 1 else none
]

-- The loop that appends to `bits` and stops when `needed` are there.
pub read_lines : ℕ → List ℕ → List (List ℕ) → List ℕ
read_lines needed bits [] = bits
read_lines needed bits (line ∷ lines) =
    let bits' : List ℕ = elim (line_bit line) [ none ↦ bits | some b ↦ bits ++ b ∷ [] ] in
    let rest = read_lines needed bits' lines in if leb needed (length bits') then bits' else rest

unfoldable pub extract_ws : List ℕ → ℕ → Option Bytes
unfolding split_lines line_bit read_lines
extract_ws text mark_len_bytes =
    let needed = mark_len_bytes * 8 in
    let bits = read_lines needed [] (split_lines text) in
    if ltb (length bits) needed then none else some (bytes_from_bits (take needed bits))

-- The confidence is `recovered / needed`.
pub record Partial : Type 0 where
  pub candidate : Option Bytes
  pub recovered : ℕ
  pub needed : ℕ

unfoldable pub extract_ws_partial : List ℕ → ℕ → Partial
unfolding split_lines line_bit read_lines
extract_ws_partial text mark_len_bytes =
    let needed = mark_len_bytes * 8 in
    let bits = read_lines needed [] (split_lines text) in
    let recovered = length bits in
    if recovered == 0
    then record { candidate = none; recovered = 0; needed = needed }
    else (let padded = take needed bits ++ replicate (needed - recovered) 0 in
        record {
          candidate = some (bytes_from_bits (take needed padded));
          recovered = min recovered needed;
          needed = needed;
        })
