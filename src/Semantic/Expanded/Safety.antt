-- ===== src/Semantic/Expanded/Safety.antt =====
-- What `embed_synonyms_v2` leaves as it is.
use oversight.Prelude.{
  ℕ, ◌+◌, ◌^◌, ◌<◌, ◌≡◌, ◌⊎◌, inl, inr, refl, ap, sym, Bool, false, Option, none, some, List, [],
  ◌∷◌, Bytes, length, ltb, arith, Bool-cases, get_elem?-some, ◌∙◌,
}
use oversight.Variants.Laws.{mark_id_to_variant_sequence_total}
use oversight.Semantic.Case.{Text, case_preserve, lower}
use oversight.Semantic.Expanded.{
  matchable_words, variant_at, pick, replace_word, swap_word, swap_words, embed_synonyms_v2,
}
use oversight.Semantic.Lookup.{has_space, variants_of}
use oversight.Semantic.Lookup.Laws.{Stands, IsEntry, lookup_v2-IsEntry}
use oversight.Semantic.Matchable.{skip_mask, matchable}
use oversight.Semantic.Matchable.Laws.{IsTaken, matchable-IsTaken}
use oversight.Semantic.Table.{Member}
use oversight.Semantic.Words.{Piece, run, mark, pieces, join}
use oversight.Semantic.Words.Laws.{join-pieces}

-- The run may be changed: in lower case it is a variant of a class, and it is now a variant of that
-- class, one without a space, in the run's pattern of capitals.
pub record IsSwapped (spans : List (ℕ × ℕ)) (text : Text) (start : ℕ) (word new : Text)
    : Type 0 where
  pub member : Member
  pub may : IsTaken spans text start word member
  pub entry : IsEntry (lower word) member
  pub index : ℕ
  pub variant : Text
  pub stands : Stands (variants_of member.class_no) index variant
  pub single : has_space variant ≡ false
  pub replaced : new ≡ case_preserve variant word

pick-lt : (cls : List Text) (v : ℕ) → length cls ≡ 3 → pick cls v < length cls
unfolding pick
pick-lt cls v three = rw three (ground arith)

module _ (spans : List (ℕ × ℕ)) (text : Text) where
  abbrev pub mask : List Bool
  mask = skip_mask spans text

  -- Piece by piece, from index `start` of the text.
  abbrev pub Preserves : ℕ → List Piece → List Piece → Type 0
  Preserves start [] [] = Unit
  Preserves start [] (q ∷ qs) = ⊥
  Preserves start (p ∷ ps) [] = ⊥
  Preserves start (mark c ∷ ps) (mark d ∷ qs) = (d ≡ c) × Preserves (start + 1) ps qs
  Preserves start (mark c ∷ ps) (run x ∷ qs) = ⊥
  Preserves start (run w ∷ ps) (mark d ∷ qs) = ⊥
  Preserves start (run w ∷ ps) (run x ∷ qs) =
      ((x ≡ w) ⊎ IsSwapped spans text start w x) × Preserves (start + length w) ps qs

  swap_word_lem :
      (start : ℕ) (w : Text) (o : Option Member) (vs : List ℕ)
      → matchable mask start w ≡ o
      → ((swap_word o w vs).0 ≡ w) ⊎ IsSwapped spans text start w (swap_word o w vs).0
  swap_word_lem start w none vs e = unfold swap_word in inl refl
  swap_word_lem start w (some m) [] e = unfold swap_word in inl refl
  swap_word_lem start w (some m) (v ∷ vs) e =
      unfold swap_word replace_word in
      (elim (Bool-cases
        (has_space (variant_at (variants_of m.class_no) (pick (variants_of m.class_no) v)))) [
          | inl spaced ↦ inl (rw spaced)
          | inr single ↦
              let may = matchable-IsTaken spans text start w m e in
              let entry = lookup_v2-IsEntry (lower w) m may.known in
              let cls = variants_of m.class_no in
              let (variant, stands) = get_elem?-some cls (pick cls v) (pick-lt cls v entry.three) in
              let same : variant_at cls (pick cls v) ≡ variant = rw (stands, variant_at) refl in
              inr (record {
                member = m;
                may = may;
                entry = entry;
                index = pick cls v;
                variant = variant;
                stands = stands;
                single = ap has_space (sym same) ∙ single;
                replaced = rw single (ap (λ x. case_preserve x w) same);
              })
        ])

  swap_words-Preserves :
      (start : ℕ) (ps : List Piece) (vs : List ℕ) → Preserves start ps (swap_words mask start ps vs)
  unfolding swap_words
  swap_words-Preserves start [] vs = tt
  swap_words-Preserves start (mark c ∷ ps) vs = (refl, swap_words-Preserves (start + 1) ps vs)
  swap_words-Preserves start (run w ∷ ps) vs = (
    swap_word_lem start w (matchable mask start w) vs refl,
    swap_words-Preserves (start + length w) ps (swap_word (matchable mask start w) w vs).1,
  )

  same-Preserves : (start : ℕ) (ps : List Piece) → Preserves start ps ps
  same-Preserves start [] = tt
  same-Preserves start (mark c ∷ ps) = (refl, same-Preserves (start + 1) ps)
  same-Preserves start (run w ∷ ps) = (inl refl, same-Preserves (start + length w) ps)

module _ (sha256 : Bytes → Bytes) (nonempty : (x : Bytes) → 0 < length (sha256 x))
    (is_word : ℕ → Bool) (skip_spans : Text → List (ℕ × ℕ)) (text : Text) where
  abbrev pub found : List Member
  found = matchable_words (skip_mask (skip_spans text) text) 0 (pieces is_word text)

  -- A text with fewer than 2 ^ 32 words to choose is returned, marked or as it is. Its runs of word
  -- characters and the characters between them are those of the text in their order, but that a
  -- run in the table may be replaced: one of which no position lies in a skipped span, that is not
  -- all in capitals, and that has no capital first unless it starts the text. The run is, in
  -- lower case, a variant of a class of the table, and what replaces it is a variant without a space
  -- of that class, one that stands in it, in the run's pattern of capitals. The digest is not
  -- empty.
  pub embed_synonyms_v2-Preserves :
      (mark_id : Bytes) (min_instances : ℕ)
      → length found < 2 ^ 32
      → (marked : List Piece) × (embed_synonyms_v2 sha256 is_word skip_spans text mark_id
            min_instances
          ≡ some (join marked))
        × Preserves (skip_spans text) text 0 (pieces is_word text) marked
  unfolding embed_synonyms_v2
  embed_synonyms_v2-Preserves mark_id min_instances few =
      let ps = pieces is_word text in
      let (vs, e, _, _) =
        mark_id_to_variant_sequence_total sha256 nonempty mark_id (length found) 3 (omega arith)
          few in
      elim (Bool-cases (ltb (length found) min_instances)) [
        | inl t ↦ (
          ps,
          rw t (ap some (sym (join-pieces is_word text))),
          same-Preserves (skip_spans text) text 0 ps,
        )
        | inr f ↦ (
          swap_words (skip_mask (skip_spans text) text) 0 ps vs,
          rw (f, e) refl,
          swap_words-Preserves (skip_spans text) text 0 ps vs,
        )
      ]
