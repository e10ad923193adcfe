-- ===== src/Semantic.antt =====
-- oversight_core/semantic.py, layer L3: a mark in the choice of synonyms, with the first table.
-- `sha256`, what `re` counts as a word character and the `repr` of the choices are parameters.
-- `none` is the `OverflowError` of `_mark_id_to_variant_sequence`; the warning on stderr is left
-- out. A score is kept as the fraction that the source divides out, so it is compared exactly.
pub mod Case
pub mod Table
pub mod Classes
pub mod Lookup
pub mod Matchable
pub mod Expanded
pub mod Spelling
pub mod Words
pub mod Substitute
pub mod Invisible
pub mod RoundTrip
pub mod Examples
use oversight.Prelude.{
  ℕ, zero, suc, ◌+◌, ◌*◌, ◌%◌, Bool, true, false, Option, none, some, List, [], ◌∷◌, Bytes, length,
  min, ltb, leb, ◌==◌, if◌then◌else◌, ◌>>=◌,
}
use oversight.Table.{text_eq, find_row}
use oversight.Variants.{mark_id_to_variant_sequence}
use oversight.Semantic.Case.{Text, lower, all, is_letter, case_preserve}
use oversight.Semantic.Table.{Member, synonym_lookup, class_of, word_of}
use oversight.Semantic.Words.{Piece, run, mark, pieces, join, strip_zw}

-- A match of `_WORD_RE` whose key is in the lookup.
unfoldable pub hit : Text → Option Member
unfolding lower all find_row synonym_lookup
hit w = if all is_letter w then find_row (lower w) synonym_lookup else none

unfoldable pub add_hit : Option Member → List Member → List Member
add_hit none rest = rest
add_hit (some m) rest = m ∷ rest

-- The loop over `_WORD_RE.finditer(text)`.
unfoldable pub hits : List Piece → List Member
unfolding hit add_hit
hits [] = []
hits (run w ∷ ps) = add_hit (hit w) (hits ps)
hits (mark c ∷ ps) = hits ps

-- One word, and the choices that are left for the words after it.
pub substitute_word : Option Member → Text → List ℕ → Text × List ℕ
unfolding class_of word_of case_preserve
substitute_word none w variants = (w, variants)
substitute_word (some m) w [] = (w, [])
substitute_word (some m) w (v ∷ variants) =
    (case_preserve (word_of (class_of m.class_no) v) w, variants)

-- The loop over `zip(matches, variants)`; what it leaves between two matches stays as it is.
pub substitute : List Piece → List ℕ → List Piece
unfolding hit substitute_word
substitute [] variants = []
substitute (run w ∷ ps) variants =
    let (w', rest) = substitute_word (hit w) w variants in run w' ∷ substitute ps rest
substitute (mark c ∷ ps) variants = mark c ∷ substitute ps variants

-- `matches` after the loop over `zip(actual, expected_variants)`; `counted` is the number of pairs.
pub agreeing : List Member → List ℕ → ℕ
unfolding class_of
agreeing [] expected = 0
agreeing (m ∷ ms) [] = 0
agreeing (m ∷ ms) (v ∷ expected) =
    (if v % length (class_of m.class_no) == m.variant then 1 else 0) + agreeing ms expected

-- A fraction: `threshold`, or `matches / counted`.
pub record Ratio : Type 0 where
  pub part : ℕ
  pub whole : ℕ

-- `score >= threshold`
unfoldable pub reaches : Ratio → Ratio → Bool
reaches score threshold = leb (threshold.part * score.whole) (score.part * threshold.whole)

module _ (sha256 : Bytes → Bytes) (is_word : ℕ → Bool) where
  unfoldable pub embed_synonyms : Text → Bytes → ℕ → Option Text
  unfolding hits substitute pieces join
  embed_synonyms text mark_id min_instances =
      let found = hits (pieces is_word text) in
      if ltb (length found) min_instances then some text else do
        variants ← mark_id_to_variant_sequence sha256 mark_id (length found) 3
        some (join (substitute (pieces is_word text) variants))

  -- The part of `verify_synonyms_match` after the words are read.
  pub compare_hits : List Member → Bytes → Ratio → Option (Bool × Ratio)
  unfolding agreeing reaches
  compare_hits [] mark_id threshold = some (false, record { part = 0; whole = 1 })
  compare_hits (m ∷ ms) mark_id threshold = do
    expected ← mark_id_to_variant_sequence sha256 mark_id (length (m ∷ ms)) 3
    let score : Ratio = record {
      part = agreeing (m ∷ ms) expected;
      whole = min (length (m ∷ ms)) (length expected);
    }
    some (reaches score threshold, score)

  unfoldable pub verify_synonyms_match : Text → Bytes → Ratio → Option (Bool × Ratio)
  unfolding hits pieces strip_zw compare_hits
  verify_synonyms_match text mark_id threshold =
      compare_hits (hits (pieces is_word (strip_zw text))) mark_id threshold

  -- The fingerprint of the choices that stand in the text, if there are any.
  fingerprint_of : (List Member → Bytes) → List Member → List Bytes
  fingerprint_of repr [] = []
  fingerprint_of repr (m ∷ ms) = sha256 (repr (m ∷ ms)) ∷ []

  unfoldable pub extract_synonyms_candidate : (List Member → Bytes) → Text → List Bytes
  unfolding hits pieces fingerprint_of
  extract_synonyms_candidate repr text = fingerprint_of repr (hits (pieces is_word text))
