-- ===== src/Watermark/Examples.antt =====
-- Runs of both layers, and instances of their theorems.
use oversight.Prelude.{ℕ, ◌≡◌, refl, none, some, List, [], ◌∷◌, Bytes, codes, replicate, arith}
use oversight.Whitespace.{embed_ws, extract_ws}
use oversight.Whitespace.RoundTrip.{bare_lines, extract_ws-embed_ws}
use oversight.ZeroWidth.{embed_zw, extract_zw}
use oversight.ZeroWidth.RoundTrip.{copies, extract_zw-embed_zw}
use oversight.Watermark.{apply_all}

abbrev mark : Bytes
mark = 0xa5 ∷ []

abbrev poem : List ℕ
poem = codes "one\ntwo\nthree\nfour\nfive\nsix\nseven\neight"

extract_zw-embed_zw_example : extract_zw (embed_zw poem mark 10) 1 ≡ replicate (copies 39 10) mark
extract_zw-embed_zw_example =
    extract_zw-embed_zw mark (omega arith) 10 poem (omega arith) (omega arith)

copies_run : copies 39 10 ≡ 3
unfolding copies
copies_run = refl

extract_ws-embed_ws_example : extract_ws (embed_ws poem mark) 1 ≡ some mark
unfolding extract_ws embed_ws bare_lines oversight.Bits.bits_of
extract_ws-embed_ws_example =
    extract_ws-embed_ws poem mark (omega arith)
      (refl, (refl, (refl, (refl, (refl, (refl, (refl, (refl, tt)))))))) (omega arith)

-- In a text of 64 empty lines a frame of the zero-width layer lands behind a trailing blank, and
-- the whitespace layer is not read back.
layers_clash :
    (extract_ws (embed_ws (replicate 63 10) (replicate 8 0xa5)) 8 ≡ some (replicate 8 0xa5))
    × (extract_ws (apply_all (replicate 63 10) (replicate 8 0xa5)) 8 ≡ none)
unfolding extract_ws apply_all oversight.Bits.bits_of oversight.Bits.bytes_from_bits
layers_clash = (refl, refl)
