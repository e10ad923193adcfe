-- ===== src/Semantic/Words/Laws.antt =====
-- A text is its pieces joined, and pieces that stand as a text's do are those of their text.
use mathlib.Core.Path.{subst}
use oversight.Prelude.{
  ℕ, ◌≡◌, refl, ap, ◌∙◌, Bool, true, false, List, [], ◌∷◌, ◌++◌, append_assoc, append-nil,
  Bool-cases, inl, inr, sym,
}
use oversight.Semantic.Case.{Text, all}
use oversight.Semantic.Case.Laws.{all_head, all_tail}
use oversight.Semantic.Words.{Piece, run, mark, close, pieces_from, pieces, join}

abbrev pub starts_run : List Piece → Bool
starts_run [] = false
starts_run (run w ∷ ps) = true
starts_run (mark c ∷ ps) = false

abbrev pub is_empty : Text → Bool
is_empty [] = true
is_empty (c ∷ cs) = false

all_snoc :
    (p : ℕ → Bool) (w : Text) (c : ℕ) → all p w ≡ true → p c ≡ true → all p (w ++ c ∷ []) ≡ true
unfolding all
all_snoc p [] c h k = rw k
all_snoc p (d ∷ w) c h k = rw (all_head p d w h) (all_snoc p w c (all_tail p d w h) k)

module _ (is_word : ℕ → Bool) where
  -- No two runs meet, runs are not empty, and each character stands in the piece of its kind.
  abbrev pub IsSegmented : List Piece → Type 0
  IsSegmented [] = Unit
  IsSegmented (run w ∷ ps) =
      (all is_word w ≡ true) × (is_empty w ≡ false) × (starts_run ps ≡ false) × IsSegmented ps
  IsSegmented (mark c ∷ ps) = (is_word c ≡ false) × IsSegmented ps

  step_in :
      (opened text : Text) (c : ℕ)
      → is_word c ≡ true
      → pieces_from is_word opened (c ∷ text) ≡ pieces_from is_word (opened ++ c ∷ []) text
  unfolding pieces_from
  step_in opened text c h = rw (h, pieces_from) refl

  step_out :
      (opened text : Text) (c : ℕ)
      → is_word c ≡ false
      → pieces_from is_word opened (c ∷ text) ≡ close opened ++ mark c ∷ pieces_from is_word [] text
  unfolding pieces_from
  step_out opened text c h = rw (h, pieces_from) refl

  pieces_from-append :
      (opened w text : Text)
      → all is_word w ≡ true
      → pieces_from is_word opened (w ++ text) ≡ pieces_from is_word (opened ++ w) text
  pieces_from-append opened [] text h = rw append-nil refl
  pieces_from-append opened (c ∷ w) text h =
      step_in opened (w ++ text) c (all_head is_word c w h)
      ∙ pieces_from-append (opened ++ c ∷ []) w text (all_tail is_word c w h)
      ∙ ap (λ o. pieces_from is_word o text) (append_assoc opened (c ∷ []) w)

  close-run : (w : Text) → is_empty w ≡ false → close w ≡ run w ∷ []
  unfolding close
  close-run [] h = cc
  close-run (c ∷ w) h = refl

  mutual
    unfolding join pieces_from close

    -- What stands after an open run does not start with one.
    pieces_from-join :
        (opened : Text) (ps : List Piece)
        → starts_run ps ≡ false
        → IsSegmented ps
        → pieces_from is_word opened (join ps) ≡ close opened ++ ps
    pieces_from-join opened [] r h = sym (append-nil _)
    pieces_from-join opened (run w ∷ ps) r h = cc
    pieces_from-join opened (mark c ∷ ps) r (k, h) =
        step_out opened (join ps) c k ∙ ap (λ t. close opened ++ mark c ∷ t) (pieces-join_lem ps h)

    pieces-join_lem : (ps : List Piece) → IsSegmented ps → pieces_from is_word [] (join ps) ≡ ps
    pieces-join_lem [] h = refl
    pieces-join_lem (run w ∷ ps) (a, e, r, h) =
        pieces_from-append [] w (join ps) a
        ∙ pieces_from-join w ps r h
        ∙ ap (λ k. k ++ ps) (close-run w e)
    pieces-join_lem (mark c ∷ ps) (k, h) =
        step_out [] (join ps) c k ∙ ap (◌∷◌ (mark c)) (pieces-join_lem ps h)

  pub pieces-join : (ps : List Piece) → IsSegmented ps → pieces is_word (join ps) ≡ ps
  unfolding pieces
  pieces-join ps h = pieces-join_lem ps h

  close-IsSegmented :
      (w : Text) (ps : List Piece)
      → all is_word w ≡ true
      → starts_run ps ≡ false
      → IsSegmented ps
      → IsSegmented (close w ++ ps)
  unfolding close
  close-IsSegmented [] ps a r h = h
  close-IsSegmented (c ∷ w) ps a r h = (a, refl, r, h)

  pieces_from-IsSegmented :
      (opened text : Text)
      → all is_word opened ≡ true
      → IsSegmented (pieces_from is_word opened text)
  unfolding pieces_from all
  pieces_from-IsSegmented opened [] h =
      subst IsSegmented (append-nil (close opened)) (close-IsSegmented opened [] h refl tt)
  pieces_from-IsSegmented opened (c ∷ text) h = elim (Bool-cases (is_word c)) [
    | inl e ↦
        rw (step_in opened text c e)
          (pieces_from-IsSegmented (opened ++ c ∷ []) text (all_snoc is_word opened c h e))
    | inr e ↦ rw (step_out opened text c e) (
        close-IsSegmented opened (mark c ∷ pieces_from is_word [] text) h refl
          (e, pieces_from-IsSegmented [] text refl))
  ]

  pub pieces-IsSegmented : (text : Text) → IsSegmented (pieces is_word text)
  unfolding pieces all
  pieces-IsSegmented text = pieces_from-IsSegmented [] text refl

  join-close : (w : Text) (ps : List Piece) → join (close w ++ ps) ≡ w ++ join ps
  unfolding join close
  join-close [] ps = refl
  join-close (c ∷ w) ps = refl

  join-pieces_from : (opened text : Text) → join (pieces_from is_word opened text) ≡ opened ++ text
  unfolding join pieces_from
  join-pieces_from opened [] =
      subst (λ k. join k ≡ opened ++ []) (append-nil (close opened)) (join-close opened [])
  join-pieces_from opened (c ∷ text) = elim (Bool-cases (is_word c)) [
    | inl e ↦
        rw (step_in opened text c e)
          (join-pieces_from (opened ++ c ∷ []) text ∙ append_assoc opened (c ∷ []) text)
    | inr e ↦ rw (step_out opened text c e) (
        join-close opened (mark c ∷ pieces_from is_word [] text)
        ∙ ap (λ t. opened ++ t) (ap (◌∷◌ c) (join-pieces_from [] text)))
  ]

  pub join-pieces : (text : Text) → join (pieces is_word text) ≡ text
  unfolding pieces
  join-pieces text = join-pieces_from [] text
