-- ===== src/Whitespace/RoundTrip.antt =====
-- A mark that is embedded in enough bare lines is read back.
use oversight.Prelude.{
  ℕ, zero, suc, ◌+◌, ◌*◌, ◌≤◌, ◌<◌, ◌≡◌, ◌≢◌, refl, ap, sym, ◌∙◌, true, false, none, some, List, [],
  ◌∷◌, ◌++◌, Bytes, IsBytes, length, take, arith, ltb, leb, if◌then◌else◌, All, All-append,
  append_assoc, append-nil, Bool-cases, inl, inr, length-append, take-append,
}
use oversight.Bits.{bits_of}
use oversight.Bits.Laws.{IsBits, length-bits_of, bits_of-IsBits, bytes_from_bits-bits_of}
use oversight.Whitespace.{
  newline, space, tab, split_lines, last_char, is_bare, suffix, mark_lines, embed_ws, line_bit,
  read_lines, extract_ws,
}
use oversight.Whitespace.Lines.{IsLine, split_lines-join_lines, split_lines_lem}

-- The lines that `embed_ws` may write to.
unfoldable pub bare_lines : List (List ℕ) → ℕ
bare_lines [] = 0
bare_lines (line ∷ lines) = (if is_bare line then 1 else 0) + bare_lines lines

-- No line ends in a space or a tab.
abbrev pub IsUnmarked : List (List ℕ) → Type 0
IsUnmarked = All (λ line. line_bit line ≡ none)

last_char-append : (line : List ℕ) (ch : ℕ) → last_char (line ++ ch ∷ []) ≡ some ch
unfolding last_char
last_char-append [] ch = refl
last_char-append (c ∷ []) ch = refl
last_char-append (c ∷ d ∷ line) ch = last_char-append (d ∷ line) ch

line_bit-suffix : (line : List ℕ) (b : ℕ) → b < 2 → line_bit (line ++ suffix b ∷ []) ≡ some b
unfolding line_bit suffix
line_bit-suffix line zero h = rw (last_char-append line space, line_bit)
line_bit-suffix line (suc zero) h = rw (last_char-append line tab, line_bit)
line_bit-suffix line (suc (suc b)) h = absurd (omega arith)

pub mark_bare :
    (bit : ℕ) (bits line : List ℕ) (lines : List (List ℕ))
    → is_bare line ≡ true
    → mark_lines (bit ∷ bits) (line ∷ lines) ≡ (line ++ suffix bit ∷ []) ∷ mark_lines bits lines
unfolding mark_lines
mark_bare bit bits line lines h = ground (arith, h)

pub mark_other :
    (bit : ℕ) (bits line : List ℕ) (lines : List (List ℕ))
    → is_bare line ≡ false
    → mark_lines (bit ∷ bits) (line ∷ lines) ≡ line ∷ mark_lines (bit ∷ bits) lines
unfolding mark_lines
mark_other bit bits line lines h = ground (arith, h)

pub mark_done : (lines : List (List ℕ)) → mark_lines [] lines ≡ lines
unfolding mark_lines
mark_done [] = refl
mark_done (line ∷ lines) = ap (◌∷◌ line) (mark_done lines)

module _ (needed : ℕ) where
  full :
      (acc : List ℕ) (lines : List (List ℕ))
      → length acc ≡ needed
      → IsUnmarked lines
      → read_lines needed acc lines ≡ acc
  unfolding read_lines
  full acc [] e u = refl
  full acc (line ∷ lines) e (u, us) = ground (arith, u, e)

  read_none :
      (acc line : List ℕ) (lines : List (List ℕ))
      → line_bit line ≡ none
      → length acc < needed
      → read_lines needed acc (line ∷ lines) ≡ read_lines needed acc lines
  unfolding read_lines
  read_none acc line lines u h = ground (arith, u, h)

  read_some :
      (acc line : List ℕ) (b : ℕ) (lines : List (List ℕ))
      → line_bit line ≡ some b
      → read_lines needed acc (line ∷ lines) ≡ (
          if leb needed (length (acc ++ b ∷ []))
          then acc ++ b ∷ []
          else read_lines needed (acc ++ b ∷ []) lines)
  unfolding read_lines
  read_some acc line b lines u = ground (arith, u)

  -- The loop stops exactly when the bits are all read.
  finish :
      (bits acc rest : List ℕ)
      → length acc + length bits ≡ needed
      → rest ≡ acc ++ bits
      → (if leb needed (length acc) then acc else rest) ≡ acc ++ bits
  finish [] acc rest e h = ground (arith, e, h, append-nil acc)
  finish (b ∷ bits) acc rest e h = ground (arith, e, h)

  read_lines-mark_lines :
      (bits acc : List ℕ) (lines : List (List ℕ))
      → IsBits bits
      → length acc + length bits ≡ needed
      → IsUnmarked lines
      → length bits ≤ bare_lines lines
      → read_lines needed acc (mark_lines bits lines) ≡ acc ++ bits
  unfolding bare_lines
  read_lines-mark_lines [] acc lines b e u enough =
      rw (mark_done lines, append-nil) (full acc lines (omega arith) u)
  read_lines-mark_lines (bit ∷ bits) acc [] b e u enough = absurd (omega arith)
  read_lines-mark_lines (bit ∷ bits) acc (line ∷ lines) (b, bs) e (u, us) enough =
      let longer = length-append acc (bit ∷ []) in
      let one = append_assoc acc (bit ∷ []) bits in
      elim (Bool-cases (is_bare line)) [
        | inl bare ↦
            let rest =
              read_lines-mark_lines bits (acc ++ bit ∷ []) lines bs (omega arith) us
                (ground (arith, bare, enough)) in
            ap (read_lines needed acc) (mark_bare bit bits line lines bare)
            ∙ read_some acc (line ++ suffix bit ∷ []) bit (mark_lines bits lines)
                (line_bit-suffix line bit b)
            ∙ finish bits (acc ++ bit ∷ []) _ (omega arith) rest
            ∙ one
        | inr kept ↦
            ap (read_lines needed acc) (mark_other bit bits line lines kept)
            ∙ read_none acc line (mark_lines (bit ∷ bits) lines) u (omega arith)
            ∙ read_lines-mark_lines (bit ∷ bits) acc lines (b, bs) e us
                (ground (arith, kept, enough))
      ]

suffix-ne-newline : (bit : ℕ) → suffix bit ≢ newline
unfolding suffix
suffix-ne-newline bit = ground arith

mark_lines-IsLine :
    (bits : List ℕ) (lines : List (List ℕ)) → All IsLine lines → All IsLine (mark_lines bits lines)
unfolding mark_lines
mark_lines-IsLine bits [] h = tt
mark_lines-IsLine [] (line ∷ lines) (h, hs) = (h, mark_lines-IsLine [] lines hs)
mark_lines-IsLine (bit ∷ bits) (line ∷ lines) (h, hs) = elim (Bool-cases (is_bare line)) [
  | inl bare ↦ rw (mark_bare bit bits line lines bare) (
    All-append _ line (suffix bit ∷ []) h (suffix-ne-newline bit, tt),
    mark_lines-IsLine bits lines hs,
  )
  | inr kept ↦ rw (mark_other bit bits line lines kept) (h, mark_lines-IsLine (bit ∷ bits) lines hs)
]

mark_lines-ne-nil :
    (bits line : List ℕ) (lines : List (List ℕ)) → mark_lines bits (line ∷ lines) ≢ []
unfolding mark_lines
mark_lines-ne-nil [] line lines e = cc
mark_lines-ne-nil (bit ∷ bits) line lines e = ground (arith, e)

split-embed :
    (text : List ℕ) (mark_id : Bytes)
    → split_lines (embed_ws text mark_id) ≡ mark_lines (bits_of mark_id) (split_lines text)
unfolding embed_ws
split-embed text mark_id =
    let (first, others, e, a) = split_lines_lem text in
    let bits = bits_of mark_id in
    rw e (
      split_lines-join_lines (mark_lines bits (first ∷ others))
        (mark_lines-ne-nil bits first others) (mark_lines-IsLine bits (first ∷ others) a))

-- In a text of which no line ends in a space or a tab and at least eight lines for each byte of the
-- mark are bare, the embedded mark is read back.
pub extract_ws-embed_ws :
    (text : List ℕ) (mark_id : Bytes)
    → IsBytes mark_id
    → IsUnmarked (split_lines text)
    → 8 * length mark_id ≤ bare_lines (split_lines text)
    → extract_ws (embed_ws text mark_id) (length mark_id) ≡ some mark_id
unfolding extract_ws
extract_ws-embed_ws text mark_id valid u enough =
    let bits = bits_of mark_id in
    let size = length-bits_of mark_id in
    let n = length mark_id * 8 in
    let read =
      ap (read_lines n []) (split-embed text mark_id)
      ∙ read_lines-mark_lines n bits [] (split_lines text) (bits_of-IsBits mark_id) (omega arith) u
          (omega arith) in
    let long : ltb (length bits) n ≡ false = ground arith in
    let whole : take n bits ≡ bits =
      ap (take n) (sym (append-nil bits)) ∙ take-append n bits [] (omega arith) in
    rw (read, long, whole) (ap some (bytes_from_bits-bits_of mark_id valid))
