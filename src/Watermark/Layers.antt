-- ===== src/Watermark/Layers.antt =====
-- The zero-width layer survives the whitespace layer under it.
use oversight.Prelude.{
  ℕ, ◌≡◌, ◌≢◌, List, [], ◌∷◌, ◌++◌, Bytes, IsBytes, length, arith, replicate, ◌==◌, All, All-append,
  Bool-cases, inl, inr,
}
use oversight.Bits.{bits_of}
use oversight.Whitespace.{
  newline, space, tab, cut, split_lines, join_lines, is_bare, suffix, mark_lines, embed_ws,
}
use oversight.Whitespace.RoundTrip.{mark_bare, mark_other, mark_done}
use oversight.ZeroWidth.Scan.{LacksJoin}
use oversight.ZeroWidth.RoundTrip.{copies, extract_zw-embed_zw}
use oversight.Watermark.{default_density, apply_all, recover_marks}

module _ {ℓ} (P : ℕ → Type ℓ) where
  cut-All : (text line : List ℕ) → All P line → All P text → All (All P) (cut line text)
  unfolding cut
  cut-All [] line a h = (a, tt)
  cut-All (ch ∷ text) line a (hc, h) = elim (Bool-cases (ch == newline)) [
    | inl here ↦ rw (here, cut) (a, cut-All text [] tt h)
    | inr inside ↦
        rw (inside, cut) (cut-All text (line ++ ch ∷ []) (All-append P line (ch ∷ []) a (hc, tt)) h)
  ]

  join-All : (lines : List (List ℕ)) → P newline → All (All P) lines → All P (join_lines lines)
  unfolding join_lines
  join-All [] n h = tt
  join-All (line ∷ []) n (h, _) = h
  join-All (line ∷ next ∷ lines) n (h, hs) =
      All-append P line (newline ∷ join_lines (next ∷ lines)) h (n, join-All (next ∷ lines) n hs)

  suffix-P : (bit : ℕ) → P space → P tab → P (suffix bit)
  unfolding suffix
  suffix-P bit s t = elim (Bool-cases (bit == 0)) [ inl e ↦ rw e s | inr e ↦ rw e t ]

  mark_lines-All :
      (bits : List ℕ) (lines : List (List ℕ))
      → P space
      → P tab
      → All (All P) lines
      → All (All P) (mark_lines bits lines)
  mark_lines-All [] lines s t h = rw (mark_done lines) h
  mark_lines-All (bit ∷ bits) [] s t h = unfold mark_lines in tt
  mark_lines-All (bit ∷ bits) (line ∷ lines) s t (h, hs) = elim (Bool-cases (is_bare line)) [
    | inl bare ↦ rw (mark_bare bit bits line lines bare) (
      All-append P line (suffix bit ∷ []) h (suffix-P bit s t, tt),
      mark_lines-All bits lines s t hs,
    )
    | inr kept ↦
        rw (mark_other bit bits line lines kept) (h, mark_lines-All (bit ∷ bits) lines s t hs)
  ]

  pub embed_ws-All :
      (text : List ℕ) (mark_id : Bytes)
      → P newline
      → P space
      → P tab
      → All P text
      → All P (embed_ws text mark_id)
  unfolding embed_ws split_lines
  embed_ws-All text mark_id n s t h =
      join-All (mark_lines (bits_of mark_id) (cut [] text)) n
        (mark_lines-All (bits_of mark_id) (cut [] text) s t (cut-All text [] tt h))

-- From a text without the frame character, marked by both layers, recovery reports under L1 only
-- the mark, once for each frame that was written.
recover_marks-apply_all :
    (text : List ℕ) (mark_id : Bytes)
    → IsBytes mark_id
    → LacksJoin text
    → (recover_marks (apply_all text mark_id) (length mark_id)).l1_zero_width
      ≡ replicate (copies (length (embed_ws text mark_id)) default_density) mark_id
unfolding recover_marks apply_all
recover_marks-apply_all text mark_id valid h =
    extract_zw-embed_zw mark_id valid default_density (embed_ws text mark_id)
      (embed_ws-All (λ ch. ch ≢ 0x200d) text mark_id (ground arith) (ground arith) (ground arith) h)
      (omega arith)
