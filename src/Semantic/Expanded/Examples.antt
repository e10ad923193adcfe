-- ===== src/Semantic/Expanded/Examples.antt =====
-- Runs of the layer with the expanded table, and an instance of its theorem.
use oversight.Prelude.{
  ℕ, ◌^◌, ◌<◌, ◌≡◌, refl, false, some, List, [], ◌∷◌, Bytes, codes, arith, length,
}
use oversight.Variants.{mark_id_to_variant_sequence}
use oversight.Semantic.Case.{Text}
use oversight.Semantic.Examples.{digest, digest_nonempty, ascii_word, limit}
use oversight.Semantic.Expanded.{matchable_words, embed_synonyms_v2, verify_synonyms_v2}
use oversight.Semantic.Expanded.Safety.{Preserves, embed_synonyms_v2-Preserves}
use oversight.Semantic.Matchable.{skip_mask}
use oversight.Semantic.Words.{Piece, pieces, join}

-- A span of inline code.
abbrev spans : Text → List (ℕ × ℕ)
spans text = (16, 22) ∷ []

abbrev note : Text
note = codes "Begin this and `start` it, Start big BIG"

note_run :
    embed_synonyms_v2 digest ascii_word spans note (1 ∷ []) 1
    ≡ some (codes "Commence this and `start` it, Start large BIG")
unfolding embed_synonyms_v2 mark_id_to_variant_sequence
note_run = refl

-- "need" stands in two classes and is entered under the first only. A mark that takes it for
-- "requirement" is not read back from the text that it made.
abbrev zeros : Bytes → Bytes
zeros m = 0 ∷ 0 ∷ []

need_run :
    embed_synonyms_v2 zeros ascii_word (λ t. []) (codes "a requirement, no requirement") (1 ∷ []) 1
    ≡ some (codes "a need, no need")
unfolding embed_synonyms_v2 mark_id_to_variant_sequence
need_run = refl

need_unread :
    verify_synonyms_v2 zeros ascii_word (λ t. []) (codes "a need, no need") (1 ∷ []) limit
    ≡ some (false, record { part = 0; whole = 2 })
unfolding verify_synonyms_v2 mark_id_to_variant_sequence
need_unread = refl

note_hits : length (matchable_words (skip_mask (spans note) note) 0 (pieces ascii_word note)) ≡ 2
unfolding matchable_words skip_mask pieces
note_hits = refl

few_hits :
    length (matchable_words (skip_mask (spans note) note) 0 (pieces ascii_word note)) < 2 ^ 32
few_hits = rw note_hits (omega arith)

embed_synonyms_v2-Preserves_example :
    (marked : List Piece) × (embed_synonyms_v2 digest ascii_word spans note (1 ∷ []) 1
      ≡ some (join marked))
    × Preserves (spans note) note 0 (pieces ascii_word note) marked
embed_synonyms_v2-Preserves_example =
    embed_synonyms_v2-Preserves digest digest_nonempty ascii_word spans note (1 ∷ []) 1 few_hits
