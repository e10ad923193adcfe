-- ===== src/Semantic/Substitute.antt =====
-- What the loop of `embed_synonyms` does to the pieces of a text.
use oversight.Prelude.{
  ℕ, suc, ◌%◌, ◌≤◌, ◌≡◌, refl, ap, ◌∙◌, Bool, true, false, Option, none, some, List, [], ◌∷◌,
  length, arith, Bool-cases, inl, inr, ==_iff,
}
use oversight.Table.{text_eq, find_row}
use oversight.Semantic.{hit, add_hit, hits, substitute_word, substitute, agreeing}
use oversight.Semantic.Case.{Text, lower, all, is_letter, case_preserve}
use oversight.Semantic.Case.Laws.{
  all_head, all_tail, lower-case_preserve, letters-case_preserve, case_preserve_twice,
}
use oversight.Semantic.Table.{Member, synonym_lookup, class_of, word_of}
use oversight.Semantic.Table.Laws.{find_row-IsWord}
use oversight.Semantic.Words.{Piece, run, mark, pieces, join}
use oversight.Semantic.Words.Laws.{
  starts_run, is_empty, IsSegmented, pieces-join, pieces-IsSegmented,
}

pub hit-eq-some :
    (w : Text) (m : Member)
    → hit w ≡ some m
    → (all is_letter w ≡ true) × (find_row (lower w) synonym_lookup ≡ some m)
unfolding hit
hit-eq-some w m h = elim (Bool-cases (all is_letter w)) [
  | inl e ↦ (e, rw e at h)
  | inr e ↦ let k : none ≡ some m = rw e at h in cc
]

-- A word of the table is found again, with the number that was chosen.
hit-case_preserve :
    (w : Text) (m : Member) (v : ℕ)
    → hit w ≡ some m
    → hit (case_preserve (word_of (class_of m.class_no) v) w)
      ≡ some (record { class_no = m.class_no; variant = v % length (class_of m.class_no) })
unfolding hit
hit-case_preserve w m v h =
    let (letters, known) = hit-eq-some w m h in
    let (_, word) = find_row-IsWord (lower w) m v known in
    let r = word_of (class_of m.class_no) v in
    rw
      (
        letters-case_preserve r w word.lowercase word.long,
        lower-case_preserve r w word.lowercase word.long,
      )
      word.found

-- One choice for each hit, in order: the member with the chosen number.
pub chosen : List Member → List ℕ → List Member
chosen [] variants = []
chosen (m ∷ ms) [] = m ∷ ms
chosen (m ∷ ms) (v ∷ variants) =
    record { class_no = m.class_no; variant = v % length (class_of m.class_no) }
    ∷ chosen ms variants

chosen_none : (ms : List Member) → chosen ms [] ≡ ms
unfolding chosen
chosen_none [] = refl
chosen_none (m ∷ ms) = refl

hits_word :
    (w : Text) (o : Option Member) (ps : List Piece) (variants : List ℕ)
    → hit w ≡ o
    → ((vs : List ℕ) → hits (substitute ps vs) ≡ chosen (hits ps) vs)
    → add_hit
        (hit (substitute_word o w variants).0)
        (hits (substitute ps (substitute_word o w variants).1))
      ≡ chosen (add_hit o (hits ps)) variants
unfolding substitute_word add_hit chosen
hits_word w none ps variants e ih = rw e (ih variants)
hits_word w (some m) ps [] e ih = rw e (ap (◌∷◌ m) (ih [] ∙ chosen_none (hits ps)))
hits_word w (some m) ps (v ∷ vs) e ih = rw (hit-case_preserve w m v e) (
    ap (◌∷◌ (record { class_no = m.class_no; variant = v % length (class_of m.class_no) })) (ih vs))

pub hits-substitute :
    (ps : List Piece) (variants : List ℕ)
    → hits (substitute ps variants) ≡ chosen (hits ps) variants
unfolding hits substitute chosen
hits-substitute [] variants = refl
hits-substitute (mark c ∷ ps) variants = hits-substitute ps variants
hits-substitute (run w ∷ ps) variants =
    hits_word w (hit w) ps variants refl (λ vs. hits-substitute ps vs)

pub agreeing_all :
    (ms : List Member) (variants : List ℕ)
    → length ms ≤ length variants
    → agreeing (chosen ms variants) variants ≡ length ms
unfolding agreeing chosen
agreeing_all [] variants l = refl
agreeing_all (m ∷ ms) [] l = absurd (omega arith)
agreeing_all (m ∷ ms) (v ∷ variants) l =
    rw
      (agreeing_all ms variants (omega arith), (==_iff _ (v % length (class_of m.class_no))).1 refl)
      (omega arith)

pub length-chosen : (ms : List Member) (variants : List ℕ) → length (chosen ms variants) ≡ length ms
unfolding chosen
length-chosen [] variants = refl
length-chosen (m ∷ ms) [] = refl
length-chosen (m ∷ ms) (v ∷ variants) = ap suc (length-chosen ms variants)

not_empty : (r x : Text) → 2 ≤ length r → lower x ≡ r → is_empty x ≡ false
unfolding lower
not_empty r [] l e = absurd (omega (arith, ap length e))
not_empty r (c ∷ x) l e = refl

module _ (is_word : ℕ → Bool) (letters_are : (c : ℕ) → is_letter c ≡ true → is_word c ≡ true) where
  letters_word : (w : Text) → all is_letter w ≡ true → all is_word w ≡ true
  unfolding all
  letters_word [] h = refl
  letters_word (c ∷ w) h =
      rw (letters_are c (all_head is_letter c w h)) (letters_word w (all_tail is_letter c w h))

  -- A replaced word is a run of word characters again.
  substitute_word_run :
      (w : Text) (o : Option Member) (variants : List ℕ)
      → hit w ≡ o
      → all is_word w ≡ true
      → is_empty w ≡ false
      → (all is_word (substitute_word o w variants).0 ≡ true)
        × (is_empty (substitute_word o w variants).0 ≡ false)
  unfolding substitute_word
  substitute_word_run w none variants e a n = (a, n)
  substitute_word_run w (some m) [] e a n = (a, n)
  substitute_word_run w (some m) (v ∷ variants) e a n =
      let (_, known) = hit-eq-some w m e in
      let (_, word) = find_row-IsWord (lower w) m v known in
      let r = word_of (class_of m.class_no) v in
      (
        letters_word _ (letters-case_preserve r w word.lowercase word.long),
        not_empty r (case_preserve r w) word.long
            (lower-case_preserve r w word.lowercase word.long),
      )

  starts_run-substitute :
      (ps : List Piece) (variants : List ℕ) → starts_run (substitute ps variants) ≡ starts_run ps
  unfolding substitute
  starts_run-substitute [] variants = refl
  starts_run-substitute (run w ∷ ps) variants = refl
  starts_run-substitute (mark c ∷ ps) variants = refl

  substitute-IsSegmented :
      (ps : List Piece) (variants : List ℕ)
      → IsSegmented is_word ps
      → IsSegmented is_word (substitute ps variants)
  unfolding substitute
  substitute-IsSegmented [] variants h = tt
  substitute-IsSegmented (mark c ∷ ps) variants (k, h) = (k, substitute-IsSegmented ps variants h)
  substitute-IsSegmented (run w ∷ ps) variants (a, n, r, h) =
      let (a', n') = substitute_word_run w (hit w) variants refl a n in
      let rest = (substitute_word (hit w) w variants).1 in
      (a', n', starts_run-substitute ps rest ∙ r, substitute-IsSegmented ps rest h)

  -- The pieces of a marked text are the replaced pieces.
  pub pieces_marked :
      (text : Text) (variants : List ℕ)
      → pieces is_word (join (substitute (pieces is_word text) variants))
        ≡ substitute (pieces is_word text) variants
  pieces_marked text variants =
      pieces-join is_word (substitute (pieces is_word text) variants)
        (substitute-IsSegmented (pieces is_word text) variants (pieces-IsSegmented is_word text))

-- A second mark replaces the choices of the first.
twice_word :
    (w : Text) (o : Option Member) (ps : List Piece) (vs us : List ℕ)
    → hit w ≡ o
    → ((as' bs : List ℕ)
        → length (hits ps) ≤ length as'
        → length (hits ps) ≤ length bs
        → substitute (substitute ps as') bs ≡ substitute ps bs)
    → length (add_hit o (hits ps)) ≤ length vs
    → length (add_hit o (hits ps)) ≤ length us
    → substitute (run (substitute_word o w vs).0 ∷ substitute ps (substitute_word o w vs).1) us
      ≡ run (substitute_word o w us).0 ∷ substitute ps (substitute_word o w us).1
unfolding substitute_word substitute add_hit
twice_word w none ps vs us e ih l k = rw e (ap (◌∷◌ (run w)) (ih vs us l k))
twice_word w (some m) ps [] us e ih l k = absurd (omega arith)
twice_word w (some m) ps (v ∷ vs) [] e ih l k = absurd (omega arith)
twice_word w (some m) ps (v ∷ vs) (u ∷ us) e ih l k =
    let (_, known) = hit-eq-some w m e in
    let (_, word) = find_row-IsWord (lower w) m v known in
    let r = word_of (class_of m.class_no) v in
    let s = word_of (class_of m.class_no) u in
    rw (hit-case_preserve w m v e, case_preserve_twice r s w word.lowercase word.long)
      (ap (◌∷◌ (run (case_preserve s w))) (ih vs us (omega arith) (omega arith)))

pub substitute-substitute :
    (ps : List Piece) (vs us : List ℕ)
    → length (hits ps) ≤ length vs
    → length (hits ps) ≤ length us
    → substitute (substitute ps vs) us ≡ substitute ps us
unfolding substitute hits
substitute-substitute [] vs us l k = refl
substitute-substitute (mark c ∷ ps) vs us l k =
    ap (◌∷◌ (mark c)) (substitute-substitute ps vs us l k)
substitute-substitute (run w ∷ ps) vs us l k =
    twice_word w (hit w) ps vs us refl (λ as' bs. substitute-substitute ps as' bs) l k
