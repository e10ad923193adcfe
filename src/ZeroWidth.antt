-- ===== src/ZeroWidth.antt =====
-- oversight_core/watermark.py, layer L1: a mark as frames of zero-width characters. A text is the
-- list of its code points. The density is positive, as its default is.
pub mod Scan
pub mod RoundTrip
use oversight.Prelude.{
  ℕ, zero, suc, ◌+◌, ◌*◌, ◌%◌, Bool, true, false, not, ◌&&◌, ◌||◌, Option, none, some, List, [],
  ◌∷◌, ◌++◌, Bytes, map, length, ltb, ◌==◌, if◌then◌else◌,
}
use oversight.Bits.{bits_of, bytes_from_bits}

abbrev pub zw_space : ℕ
zw_space = 0x200b

abbrev pub zw_nonjoin : ℕ
zw_nonjoin = 0x200c

abbrev pub zw_join : ℕ
zw_join = 0x200d

unfoldable pub glyph : ℕ → ℕ
glyph bit = if bit == 0 then zw_space else zw_nonjoin

unfoldable pub frame : Bytes → List ℕ
frame mark_id = zw_join ∷ (map glyph (bits_of mark_id) ++ zw_join ∷ [])

-- The loop over `enumerate(text)`, from index `i`.
unfoldable pub scatter : List ℕ → ℕ → ℕ → List ℕ → List ℕ
scatter mark density i [] = []
scatter mark density i (ch ∷ text) =
    ch
    ∷ ((if not (i == 0) && i % density == 0 then mark else []) ++ scatter mark density (i + 1) text)

unfoldable pub embed_zw : List ℕ → Bytes → ℕ → List ℕ
unfolding frame glyph scatter
embed_zw text mark_id density =
    if ltb (length text) density
    then text ++ frame mark_id
    else scatter (frame mark_id) density 0 text

-- What a character is to the inner loop.
pub data Glyph : Type 0 where
  bit : ℕ → Glyph
  join : Glyph
  other : Glyph

pub read_glyph : ℕ → Glyph
read_glyph ch =
    if ch == zw_space
    then bit 0
    else if ch == zw_nonjoin
    then bit 1
    else if ch == zw_join
    then join
    else other

pub is_join : ℕ → Bool
unfolding read_glyph
is_join ch = elim (read_glyph ch) [ join ↦ true | _ ↦ false ]

-- Both loops. Outside a frame the second argument is `none`, inside one it is the bits so far. The
-- character that ends a frame is passed over, whatever it is.
pub scan : ℕ → Option (List ℕ) → List ℕ → List Bytes
scan expected_bits none [] = []
scan expected_bits none (ch ∷ text) = scan expected_bits (if is_join ch then some [] else none) text
scan expected_bits (some bits) [] = []
scan expected_bits (some bits) (ch ∷ text) = elim (read_glyph ch) [
  | bit b ↦ scan expected_bits (some (bits ++ b ∷ [])) text
  | join ↦
      (if length bits == expected_bits then bytes_from_bits bits ∷ [] else [])
      ++ scan expected_bits none text
  | other ↦ scan expected_bits none text
]

unfoldable pub extract_zw : List ℕ → ℕ → List Bytes
unfolding scan is_join read_glyph bytes_from_bits
extract_zw text mark_len_bytes = scan (mark_len_bytes * 8) none text
