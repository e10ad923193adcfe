-- ===== src/ZeroWidth/Scan.antt =====
-- The scanner over plain text and over one frame.
use oversight.Prelude.{
  ℕ, zero, suc, ◌*◌, ◌<◌, ◌≡◌, ◌≢◌, refl, ap, sym, ◌∙◌, none, some, List, [], ◌∷◌, ◌++◌, Bytes,
  IsBytes, map, length, arith, All, append_assoc, append-nil,
}
use oversight.Bits.{bits_of, bytes_from_bits}
use oversight.Bits.Laws.{IsBits, length-bits_of, bits_of-IsBits, bytes_from_bits-bits_of}
use oversight.ZeroWidth.{zw_join, glyph, frame, scan, is_join, read_glyph}

-- A text without the frame character.
abbrev pub LacksJoin : List ℕ → Type 0
LacksJoin = All (λ ch. ch ≢ zw_join)

pub scan-plain :
    (n : ℕ) (text rest : List ℕ) → LacksJoin text → scan n none (text ++ rest) ≡ scan n none rest
unfolding scan is_join read_glyph
scan-plain n [] rest h = refl
scan-plain n (ch ∷ text) rest (hc, h) = ground (arith, scan-plain n text rest h, hc)

scan-glyph :
    (n b : ℕ) (so_far rest : List ℕ)
    → b < 2
    → scan n (some so_far) (glyph b ∷ rest) ≡ scan n (some (so_far ++ b ∷ [])) rest
unfolding scan glyph read_glyph
scan-glyph n zero so_far rest h = refl
scan-glyph n (suc zero) so_far rest h = refl
scan-glyph n (suc (suc b)) so_far rest h = absurd (omega arith)

scan_bits :
    (n : ℕ) (bits so_far rest : List ℕ)
    → IsBits bits
    → scan n (some so_far) (map glyph bits ++ rest) ≡ scan n (some (so_far ++ bits)) rest
scan_bits n [] so_far rest h = ap (λ b. scan n (some b) rest) (sym (append-nil so_far))
scan_bits n (b ∷ bits) so_far rest (hb, h) =
    scan-glyph n b so_far (map glyph bits ++ rest) hb
    ∙ scan_bits n bits (so_far ++ b ∷ []) rest h
    ∙ ap (λ l. scan n (some l) rest) (append_assoc so_far (b ∷ []) bits)

scan_close :
    (n : ℕ) (bits rest : List ℕ)
    → length bits ≡ n
    → scan n (some bits) (zw_join ∷ rest) ≡ bytes_from_bits bits ∷ scan n none rest
unfolding scan read_glyph
scan_close n bits rest h = ground (arith, h)

scan_open : (n : ℕ) (rest : List ℕ) → scan n none (zw_join ∷ rest) ≡ scan n (some []) rest
unfolding scan is_join read_glyph
scan_open n rest = refl

-- A frame yields its mark.
pub scan-frame :
    (mark_id : Bytes) (rest : List ℕ)
    → IsBytes mark_id
    → scan (length mark_id * 8) none (frame mark_id ++ rest)
      ≡ mark_id ∷ scan (length mark_id * 8) none rest
unfolding frame
scan-frame mark_id rest b =
    let n = length mark_id * 8 in
    let bits = bits_of mark_id in
    let whole : length bits ≡ n = omega (arith, length-bits_of mark_id) in
    let cut = append_assoc (map glyph bits) (zw_join ∷ []) rest in
    scan_open n ((map glyph bits ++ zw_join ∷ []) ++ rest)
    ∙ ap (scan n (some [])) cut
    ∙ scan_bits n bits [] (zw_join ∷ rest) (bits_of-IsBits mark_id)
    ∙ scan_close n bits rest whole
    ∙ ap (λ m. m ∷ scan n none rest) (bytes_from_bits-bits_of mark_id b)
