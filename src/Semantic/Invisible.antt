-- ===== src/Semantic/Invisible.antt =====
-- The zero-width layer over a text is what `_strip_zw` takes away.
use oversight.Prelude.{
  ℕ, ◌+◌, ◌%◌, ◌≡◌, refl, ap, ◌∙◌, sym, Bool, true, false, not, ◌&&◌, ◌||◌, List, [], ◌∷◌, ◌++◌,
  Bytes, map, length, ltb, ◌==◌, if◌then◌else◌, arith, Bool-cases, inl, inr, All, All-append,
  append-nil,
}
use oversight.Bits.{bits_of}
use oversight.ZeroWidth.{glyph, frame, scatter, embed_zw}
use oversight.Semantic.Case.{Text}
use oversight.Semantic.Words.{remove, strip_zw}

abbrev pub is_zw : ℕ → Bool
is_zw c = c == 0x200b || c == 0x200c || c == 0x200d || c == 0xfeff

-- No character of the text is invisible.
abbrev pub IsPlain : Text → Type 0
IsPlain = All (λ c. is_zw c ≡ false)

strip_zw-cons :
    (c : ℕ) (text : Text)
    → strip_zw (c ∷ text) ≡ (if is_zw c then strip_zw text else c ∷ strip_zw text)
unfolding strip_zw remove
strip_zw-cons c text = ground arith

pub strip_zw_plain : (text : Text) → IsPlain text → strip_zw text ≡ text
strip_zw_plain [] h = unfold strip_zw remove in refl
strip_zw_plain (c ∷ text) (p, h) = strip_zw-cons c text ∙ rw p (ap (◌∷◌ c) (strip_zw_plain text h))

-- Every character is one that is taken away.
strip_zw_drop : (f rest : Text) → All (λ c. is_zw c ≡ true) f → strip_zw (f ++ rest) ≡ strip_zw rest
strip_zw_drop [] rest h = refl
strip_zw_drop (c ∷ f) rest (p, h) = strip_zw-cons c (f ++ rest) ∙ rw p (strip_zw_drop f rest h)

glyphs : (bits : List ℕ) → All (λ c. is_zw c ≡ true) (map glyph bits)
unfolding glyph
glyphs [] = tt
glyphs (b ∷ bits) =
    (elim (Bool-cases (b == 0)) [ inl e ↦ rw e refl | inr e ↦ rw e refl ], glyphs bits)

frame_invisible : (mark_id : Bytes) → All (λ c. is_zw c ≡ true) (frame mark_id)
unfolding frame
frame_invisible mark_id =
    (refl, All-append _ (map glyph (bits_of mark_id)) _ (glyphs (bits_of mark_id)) (refl, tt))

strip_zw-scatter :
    (mark_id : Bytes) (density i : ℕ) (text : Text)
    → IsPlain text
    → strip_zw (scatter (frame mark_id) density i text) ≡ text
unfolding scatter
strip_zw-scatter mark_id density i [] h = unfold strip_zw remove in refl
strip_zw-scatter mark_id density i (c ∷ text) (p, h) =
    let ih = strip_zw-scatter mark_id density (i + 1) text h in
    let later = scatter (frame mark_id) density (i + 1) text in
    strip_zw-cons c _
    ∙ rw p (
        ap (◌∷◌ c) (elim (Bool-cases (not (i == 0) && i % density == 0)) [
          | inl e ↦ rw e (strip_zw_drop (frame mark_id) later (frame_invisible mark_id) ∙ ih)
          | inr e ↦ rw e ih
        ]))

strip_zw_end :
    (mark_id : Bytes) (text : Text) → IsPlain text → strip_zw (text ++ frame mark_id) ≡ text
strip_zw_end mark_id [] h =
    ap strip_zw (sym (append-nil (frame mark_id)))
    ∙ strip_zw_drop (frame mark_id) [] (frame_invisible mark_id)
    ∙ unfold strip_zw remove in refl
strip_zw_end mark_id (c ∷ text) (p, h) =
    strip_zw-cons c (text ++ frame mark_id) ∙ rw p (ap (◌∷◌ c) (strip_zw_end mark_id text h))

pub strip_zw-embed_zw :
    (text : Text) (mark_id : Bytes) (density : ℕ)
    → IsPlain text
    → strip_zw (embed_zw text mark_id density) ≡ text
unfolding embed_zw
strip_zw-embed_zw text mark_id density h = elim (Bool-cases (ltb (length text) density)) [
  | inl e ↦ rw e (strip_zw_end mark_id text h)
  | inr e ↦ rw e (strip_zw-scatter mark_id density 0 text h)
]
