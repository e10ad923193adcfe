-- ===== src/Semantic/Examples.antt =====
-- Runs of the synonym layer, and instances of its theorems.
use oversight.Prelude.{
  ℕ, ◌<◌, ◌≡◌, refl, Bool, true, false, some, [], ◌∷◌, ◌++◌, Bytes, codes, length, arith, leb, ◌==◌,
  ◌&&◌, ◌||◌, not,
}
use oversight.Variants.{mark_id_to_variant_sequence}
use oversight.ZeroWidth.{embed_zw}
use oversight.Semantic.{
  hits, Ratio, embed_synonyms, verify_synonyms_match, extract_synonyms_candidate,
}
use oversight.Semantic.Case.{Text, all, is_letter}
use oversight.Semantic.Invisible.{is_zw, IsPlain}
use oversight.Semantic.Words.{pieces}
use oversight.Semantic.RoundTrip.{verify_synonyms_match-embed_synonyms, embed_synonyms_again}

-- A digest that is not empty, and differs from mark to mark.
abbrev pub digest : Bytes → Bytes
digest m = 2 ∷ m ++ 1 ∷ 4 ∷ []

abbrev pub ascii_word : ℕ → Bool
ascii_word c = is_letter c || c == b'_' || (leb b'0' c && leb c b'9')

abbrev letter : Text
letter = codes "Begin with a BIG plan, but use the make_up problem_2 fast."

abbrev pub limit : Ratio
limit = record { part = 7; whole = 10 }

marked_run :
    embed_synonyms digest ascii_word letter (0 ∷ []) 4
    ≡ some (codes "Commence with a LARGE plan, but use the make_up problem_2 fast.")
unfolding embed_synonyms mark_id_to_variant_sequence
marked_run = refl

few_hits_run : embed_synonyms digest ascii_word letter (0 ∷ []) 7 ≡ some letter
unfolding embed_synonyms
few_hits_run = refl

other_mark_run :
    verify_synonyms_match digest ascii_word letter (0 ∷ []) limit
    ≡ some (false, record { part = 4; whole = 6 })
unfolding verify_synonyms_match mark_id_to_variant_sequence
other_mark_run = refl

no_hit_run : extract_synonyms_candidate digest ascii_word (λ ms. []) (codes "none") ≡ []
unfolding extract_synonyms_candidate
no_hit_run = refl

-- What the theorems ask of a digest and of the letters.
pub digest_nonempty : (x : Bytes) → 0 < length (digest x)
digest_nonempty x = omega arith

letters_are : (c : ℕ) → is_letter c ≡ true → ascii_word c ≡ true
letters_are c h = rw h refl

visible : (text : Text) → all (λ c. not (is_zw c)) text ≡ true → IsPlain text
unfolding all
visible [] h = tt
visible (c ∷ text) h =
    let head : is_zw c ≡ false = ground arith in (head, visible text (ground arith))

letter-IsPlain : IsPlain letter
unfolding all
letter-IsPlain = visible letter refl

abbrev six_hits : Ratio
six_hits = record { part = 6; whole = 6 }

verify_synonyms_match-embed_synonyms_example :
    (marked : Text) × (embed_synonyms digest ascii_word letter (0 ∷ []) 4 ≡ some marked)
    × (verify_synonyms_match digest ascii_word marked (0 ∷ []) limit ≡ some (true, six_hits))
    × (verify_synonyms_match digest ascii_word (embed_zw marked (9 ∷ []) 5) (0 ∷ []) limit
        ≡ some (true, six_hits))
unfolding hits pieces
verify_synonyms_match-embed_synonyms_example =
    verify_synonyms_match-embed_synonyms digest digest_nonempty ascii_word letters_are letter 4
      letter-IsPlain (omega arith) (omega arith) (omega arith) (0 ∷ []) (9 ∷ []) 5 limit
      (omega arith)

embed_synonyms_again_example :
    (marked : Text) × (embed_synonyms digest ascii_word letter (0 ∷ []) 4 ≡ some marked)
    × (embed_synonyms digest ascii_word marked (9 ∷ []) 4
        ≡ embed_synonyms digest ascii_word letter (9 ∷ []) 4)
unfolding hits pieces
embed_synonyms_again_example =
    embed_synonyms_again digest digest_nonempty ascii_word letters_are letter 4 letter-IsPlain
      (omega arith) (omega arith) (omega arith) (0 ∷ []) (9 ∷ [])
