-- ===== src/Semantic/RoundTrip.antt =====
-- A mark in the synonyms is recognised, also under the zero-width layer, and gives way to the next.
use mathlib.Core.Path.{subst}
use oversight.Prelude.{
  ℕ, ◌^◌, ◌≤◌, ◌<◌, ◌≡◌, refl, ap, ◌∙◌, sym, Bool, true, false, Option, none, some, List, [], ◌∷◌,
  ◌++◌, Bytes, length, min, ltb, arith, All-append,
}
use oversight.Variants.{mark_id_to_variant_sequence}
use oversight.Variants.Laws.{mark_id_to_variant_sequence_total}
use oversight.ZeroWidth.{embed_zw}
use oversight.Semantic.{
  hit, hits, substitute_word, substitute, agreeing, Ratio, reaches, embed_synonyms, compare_hits,
  verify_synonyms_match,
}
use oversight.Semantic.Case.{Text, lower, all, is_letter}
use oversight.Semantic.Case.Laws.{all_head, all_tail, letters-case_preserve}
use oversight.Semantic.Table.{Member, class_of, word_of}
use oversight.Semantic.Table.Laws.{find_row-IsWord}
use oversight.Semantic.Words.{Piece, run, mark, pieces, join, strip_zw}
use oversight.Semantic.Words.Laws.{join-pieces}
use oversight.Semantic.Invisible.{is_zw, IsPlain, strip_zw_plain, strip_zw-embed_zw}
use oversight.Semantic.Substitute.{
  hit-eq-some, chosen, hits-substitute, agreeing_all, length-chosen, pieces_marked,
  substitute-substitute,
}

letter_plain : (c : ℕ) → is_letter c ≡ true → is_zw c ≡ false
letter_plain c h = ground arith

letters-IsPlain : (w : Text) → all is_letter w ≡ true → IsPlain w
letters-IsPlain [] h = tt
letters-IsPlain (c ∷ w) h =
    (letter_plain c (all_head is_letter c w h), letters-IsPlain w (all_tail is_letter c w h))

All-parts : (w t : Text) → IsPlain (w ++ t) → IsPlain w × IsPlain t
All-parts [] t h = (tt, h)
All-parts (c ∷ w) t (p, h) = let (a, b) = All-parts w t h in ((p, a), b)

substitute_word-IsPlain :
    (w : Text) (o : Option Member) (vs : List ℕ)
    → hit w ≡ o
    → IsPlain w
    → IsPlain (substitute_word o w vs).0
unfolding substitute_word
substitute_word-IsPlain w none vs e p = p
substitute_word-IsPlain w (some m) [] e p = p
substitute_word-IsPlain w (some m) (v ∷ vs) e p =
    let (_, known) = hit-eq-some w m e in
    let (_, word) = find_row-IsWord (lower w) m v known in
    letters-IsPlain _
      (letters-case_preserve (word_of (class_of m.class_no) v) w word.lowercase word.long)

substitute-IsPlain :
    (ps : List Piece) (vs : List ℕ) → IsPlain (join ps) → IsPlain (join (substitute ps vs))
unfolding substitute join
substitute-IsPlain [] vs h = tt
substitute-IsPlain (mark c ∷ ps) vs (p, h) = (p, substitute-IsPlain ps vs h)
substitute-IsPlain (run w ∷ ps) vs h =
    let (p, q) = All-parts w (join ps) h in
    All-append _ (substitute_word (hit w) w vs).0 _ (substitute_word-IsPlain w (hit w) vs refl p)
      (substitute-IsPlain ps (substitute_word (hit w) w vs).1 q)

module _ (sha256 : Bytes → Bytes) (nonempty : (x : Bytes) → 0 < length (sha256 x))
    (is_word : ℕ → Bool) (letters_are : (c : ℕ) → is_letter c ≡ true → is_word c ≡ true)
    (text : Text) (min_instances : ℕ) (plain : IsPlain text)
    (enough : min_instances ≤ length (hits (pieces is_word text)))
    (some_hit : 0 < length (hits (pieces is_word text)))
    (few : length (hits (pieces is_word text)) < 2 ^ 32) where
  abbrev found : List Member
  found = hits (pieces is_word text)

  -- The choices of a mark, and the text that they make.
  record IsMarked (mark_id : Bytes) : Type 0 where
    choices : List ℕ
    derived : mark_id_to_variant_sequence sha256 mark_id (length found) 3 ≡ some choices
    as_long : length choices ≡ length found
    embedded :
        embed_synonyms sha256 is_word text mark_id min_instances
        ≡ some (join (substitute (pieces is_word text) choices))

  embed_lem :
      (seen : Text) (mark_id : Bytes) (vs : List ℕ)
      → length (hits (pieces is_word seen)) ≡ length found
      → mark_id_to_variant_sequence sha256 mark_id (length found) 3 ≡ some vs
      → embed_synonyms sha256 is_word seen mark_id min_instances
        ≡ some (join (substitute (pieces is_word seen) vs))
  unfolding embed_synonyms
  embed_lem seen mark_id vs n e =
      let t : ltb (length found) min_instances ≡ false = ground arith in rw (n, t, e) refl

  marking : (mark_id : Bytes) → IsMarked mark_id
  marking mark_id =
      let (choices, e, l, _) =
        mark_id_to_variant_sequence_total sha256 nonempty mark_id (length found) 3 (omega arith)
          few in
      record {
        choices = choices;
        derived = e;
        as_long = l;
        embedded = embed_lem text mark_id choices refl e;
      }

  marked_text : Bytes → Text
  marked_text mark_id = join (substitute (pieces is_word text) (marking mark_id).choices)

  marked_text-IsPlain : (mark_id : Bytes) → IsPlain (marked_text mark_id)
  unfolding marked_text
  marked_text-IsPlain mark_id =
      substitute-IsPlain (pieces is_word text) (marking mark_id).choices
        (subst IsPlain (sym (join-pieces is_word text)) plain)

  marked_pieces :
      (mark_id : Bytes)
      → pieces is_word (marked_text mark_id)
        ≡ substitute (pieces is_word text) (marking mark_id).choices
  unfolding marked_text
  marked_pieces mark_id = pieces_marked is_word letters_are text (marking mark_id).choices

  marked_hits :
      (mark_id : Bytes)
      → hits (pieces is_word (marked_text mark_id)) ≡ chosen found (marking mark_id).choices
  marked_hits mark_id =
      ap hits (marked_pieces mark_id)
      ∙ hits-substitute (pieces is_word text) (marking mark_id).choices

  full : Ratio
  full = record { part = length found; whole = length found }

  full_reaches : (t : Ratio) → t.part ≤ t.whole → reaches full t ≡ true
  unfolding reaches full
  full_reaches t h = grind (arith)

  -- The comparison of choices that all agree.
  compare_full :
      (ms : List Member) (choices : List ℕ) (mark_id : Bytes) (t : Ratio)
      → length ms ≡ length found
      → length choices ≡ length found
      → mark_id_to_variant_sequence sha256 mark_id (length found) 3 ≡ some choices
      → agreeing ms choices ≡ length found
      → compare_hits sha256 is_word ms mark_id t ≡ some (reaches full t, full)
  unfolding compare_hits full
  compare_full [] choices mark_id t n l e a = absurd (omega arith)
  compare_full (m ∷ ms) choices mark_id t n l e a =
      let e' : mark_id_to_variant_sequence sha256 mark_id (length (m ∷ ms)) 3 ≡ some choices =
        ap (λ k. mark_id_to_variant_sequence sha256 mark_id k 3) n ∙ e in
      let k : min (length (m ∷ ms)) (length choices) ≡ length found = omega arith in
      rw (e', a, k) refl

  verify_lem :
      (seen : Text) (mark_id : Bytes) (t : Ratio)
      → verify_synonyms_match sha256 is_word seen mark_id t
        ≡ compare_hits sha256 is_word (hits (pieces is_word (strip_zw seen))) mark_id t
  unfolding verify_synonyms_match
  verify_lem seen mark_id t = refl

  recognised :
      (mark_id : Bytes) (t : Ratio) (seen : Text)
      → t.part ≤ t.whole
      → strip_zw seen ≡ marked_text mark_id
      → verify_synonyms_match sha256 is_word seen mark_id t ≡ some (true, full)
  recognised mark_id t seen h e =
      let w = marking mark_id in
      verify_lem seen mark_id t
      ∙ ap (λ s. compare_hits sha256 is_word (hits (pieces is_word s)) mark_id t) e
      ∙ ap (λ ms. compare_hits sha256 is_word ms mark_id t) (marked_hits mark_id)
      ∙ compare_full (chosen found w.choices) w.choices mark_id t (length-chosen found w.choices)
          w.as_long w.derived (agreeing_all found w.choices (omega (arith, w.as_long)))
      ∙ ap (λ b. some (b, full)) (full_reaches t h)

  -- A text without invisible characters, whose hits are as many as asked for, one at least and
  -- fewer than 2 ^ 32, is marked, and the comparison of the marked text with the mark reports a
  -- match with every one of its hits agreeing, whatever the threshold up to 1. It does so too when
  -- any mark has been embedded over it with zero-width characters. The digest is not empty, and
  -- letters are word characters.
  pub verify_synonyms_match-embed_synonyms :
      (mark_id other : Bytes) (density : ℕ) (t : Ratio)
      → t.part ≤ t.whole
      → let all_agree : Ratio = record {
        part = length (hits (pieces is_word text));
        whole = length (hits (pieces is_word text));
      } in
        (marked : Text) × (embed_synonyms sha256 is_word text mark_id min_instances ≡ some marked)
        × (verify_synonyms_match sha256 is_word marked mark_id t ≡ some (true, all_agree))
        × (verify_synonyms_match sha256 is_word (embed_zw marked other density) mark_id t
            ≡ some (true, all_agree))
  unfolding marked_text full
  verify_synonyms_match-embed_synonyms mark_id other density t h =
      let p = marked_text-IsPlain mark_id in
      (
        marked_text mark_id,
        (marking mark_id).embedded,
        recognised mark_id t (marked_text mark_id) h (strip_zw_plain _ p),
        recognised mark_id t (embed_zw (marked_text mark_id) other density) h
            (strip_zw-embed_zw _ other density p),
      )

  -- A text without invisible characters, whose hits are as many as asked for, one at least and
  -- fewer than 2 ^ 32, can be marked again: a second mark over the first gives the text that the
  -- second gives alone. The digest is not empty, and letters are word characters.
  pub embed_synonyms_again :
      (first second : Bytes)
      → (marked : Text) × (embed_synonyms sha256 is_word text first min_instances ≡ some marked)
        × (embed_synonyms sha256 is_word marked second min_instances
            ≡ embed_synonyms sha256 is_word text second min_instances)
  unfolding marked_text
  embed_synonyms_again first second =
      let w = marking first in
      let v = marking second in
      let same : substitute (pieces is_word (marked_text first)) v.choices
          ≡ substitute (pieces is_word text) v.choices =
        ap (λ ps. substitute ps v.choices) (marked_pieces first)
        ∙ substitute-substitute (pieces is_word text) w.choices v.choices (omega (arith, w.as_long))
            (omega (arith, v.as_long)) in
      (
        marked_text first,
        w.embedded,
        embed_lem (marked_text first) second v.choices
              (ap length (marked_hits first) ∙ length-chosen found w.choices) v.derived
            ∙ ap (λ ps. some (join ps)) same
            ∙ sym v.embedded,
      )
