-- ===== src/Semantic/Expanded.antt =====
-- oversight_core/semantic.py, `embed_synonyms_v2` and `verify_synonyms_v2`: the synonym layer with
-- the expanded table. The import of that table succeeds.
pub mod Safety
pub mod Examples
use oversight.Prelude.{
  ℕ, ◌+◌, ◌%◌, Bool, true, false, ◌||◌, Option, none, some, List, [], ◌∷◌, Bytes, length, min, ltb,
  ◌==◌, if◌then◌else◌, get_elem?, ◌>>=◌,
}
use oversight.Variants.{mark_id_to_variant_sequence}
use oversight.Semantic.{Ratio, reaches, add_hit}
use oversight.Semantic.Case.{Text, case_preserve}
use oversight.Semantic.Lookup.{has_space, variants_of}
use oversight.Semantic.Matchable.{skip_mask, matchable}
use oversight.Semantic.Table.{Member}
use oversight.Semantic.Words.{Piece, run, mark, pieces, join, strip_zw}

-- `list(iter_matchable_words(text))`, from index `start`.
unfoldable pub matchable_words : List Bool → ℕ → List Piece → List Member
unfolding matchable add_hit
matchable_words mask start [] = []
matchable_words mask start (run w ∷ ps) =
    add_hit (matchable mask start w) (matchable_words mask (start + length w) ps)
matchable_words mask start (mark c ∷ ps) = matchable_words mask (start + 1) ps

-- `cls_variants[i]`, whose index is always in range here.
unfoldable pub variant_at : List Text → ℕ → Text
variant_at cls i = elim (get_elem? cls i) [ none ↦ [] | some word ↦ word ]

-- The index of the variant that is taken: the next one, twice at most, if it has a space.
unfoldable pub pick : List Text → ℕ → ℕ
unfolding variant_at has_space
pick cls v =
    let first = v % length cls in
    let second = (first + 1) % length cls in
    if has_space (variant_at cls first)
    then if has_space (variant_at cls second) then (second + 1) % length cls else second
    else first

unfoldable pub replace_word : List Text → ℕ → Text → Text
unfolding pick variant_at has_space case_preserve
replace_word cls v w =
    let word = variant_at cls (pick cls v) in if has_space word then w else case_preserve word w

unfoldable pub swap_word : Option Member → Text → List ℕ → Text × List ℕ
unfolding replace_word variants_of
swap_word none w variants = (w, variants)
swap_word (some m) w [] = (w, [])
swap_word (some m) w (v ∷ variants) = (replace_word (variants_of m.class_no) v w, variants)

-- The loop over `zip(matches, variants)`, from index `start` of the text.
unfoldable pub swap_words : List Bool → ℕ → List Piece → List ℕ → List Piece
unfolding matchable swap_word
swap_words mask start [] variants = []
swap_words mask start (run w ∷ ps) variants =
    let (w', rest) = swap_word (matchable mask start w) w variants in
    run w' ∷ swap_words mask (start + length w) ps rest
swap_words mask start (mark c ∷ ps) variants = mark c ∷ swap_words mask (start + 1) ps variants

-- The loop of the comparison: a variant with a space counts as agreeing.
unfoldable pub agreeing_v2 : List Member → List ℕ → ℕ
unfolding variant_at variants_of has_space
agreeing_v2 [] expected = 0
agreeing_v2 (m ∷ ms) [] = 0
agreeing_v2 (m ∷ ms) (v ∷ expected) =
    let cls = variants_of m.class_no in
    let i = v % length cls in
    (if has_space (variant_at cls i) || i == m.variant then 1 else 0) + agreeing_v2 ms expected

module _ (sha256 : Bytes → Bytes) (is_word : ℕ → Bool) (skip_spans : Text → List (ℕ × ℕ)) where
  unfoldable pub embed_synonyms_v2 : Text → Bytes → ℕ → Option Text
  unfolding matchable_words swap_words skip_mask pieces join
  embed_synonyms_v2 text mark_id min_instances =
      let mask = skip_mask (skip_spans text) text in
      let found = matchable_words mask 0 (pieces is_word text) in
      if ltb (length found) min_instances then some text else do
        variants ← mark_id_to_variant_sequence sha256 mark_id (length found) 3
        some (join (swap_words mask 0 (pieces is_word text) variants))

  -- The part of `verify_synonyms_v2` after the words are read.
  compare_v2 : List Member → Bytes → Ratio → Option (Bool × Ratio)
  unfolding agreeing_v2 reaches
  compare_v2 [] mark_id threshold = some (false, record { part = 0; whole = 1 })
  compare_v2 (m ∷ ms) mark_id threshold = do
    expected ← mark_id_to_variant_sequence sha256 mark_id (length (m ∷ ms)) 3
    let score : Ratio = record {
      part = agreeing_v2 (m ∷ ms) expected;
      whole = min (length (m ∷ ms)) (length expected);
    }
    some (reaches score threshold, score)

  unfoldable pub verify_synonyms_v2 : Text → Bytes → Ratio → Option (Bool × Ratio)
  unfolding matchable_words skip_mask pieces strip_zw compare_v2
  verify_synonyms_v2 text mark_id threshold =
      let seen = strip_zw text in
      compare_v2 (matchable_words (skip_mask (skip_spans seen) seen) 0 (pieces is_word seen))
        mark_id threshold
