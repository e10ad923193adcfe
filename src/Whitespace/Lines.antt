-- ===== src/Whitespace/Lines.antt =====
-- Splitting and joining lines are inverse to each other.
use oversight.Prelude.{
  ℕ, ◌≡◌, ◌≢◌, refl, ap, sym, ◌∙◌, List, [], ◌∷◌, ◌++◌, arith, ◌==◌, All, append_assoc, append-nil,
  Bool-cases, inl, inr, All-append,
}
use oversight.Whitespace.{newline, cut, split_lines, join_lines}

abbrev pub IsLine : List ℕ → Type 0
IsLine = All (λ ch. ch ≢ newline)

cut-append : (p rest line : List ℕ) → IsLine p → cut line (p ++ rest) ≡ cut (line ++ p) rest
unfolding cut
cut-append [] rest line h = ap (λ l. cut l rest) (sym (append-nil line))
cut-append (ch ∷ p) rest line (hc, h) =
    ground (arith, hc, cut-append p rest (line ++ ch ∷ []) h, append_assoc line (ch ∷ []) p)

cut-newline : (line rest : List ℕ) → cut line (newline ∷ rest) ≡ line ∷ cut [] rest
unfolding cut
cut-newline line rest = refl

-- Splitting the joined lines gives the lines back.
pub split_lines-join_lines :
    (lines : List (List ℕ)) → lines ≢ [] → All IsLine lines → split_lines (join_lines lines) ≡ lines
unfolding split_lines join_lines
split_lines-join_lines [] p h = absurd (p refl)
split_lines-join_lines (line ∷ []) p (h, _) =
    ap (cut []) (sym (append-nil line)) ∙ cut-append line [] [] h
split_lines-join_lines (line ∷ next ∷ lines) p (h, hs) =
    cut-append line _ [] h
    ∙ cut-newline line (join_lines (next ∷ lines))
    ∙ ap (◌∷◌ line) (split_lines-join_lines (next ∷ lines) (λ e. cc) hs)

-- What the splitter returns has a first line, and no line holds a newline.
cut_lines :
    (text line : List ℕ)
    → IsLine line
    → (first : List ℕ) × (others : List (List ℕ)) × (cut line text ≡ first ∷ others)
      × All IsLine (first ∷ others)
unfolding cut
cut_lines [] line h = (line, [], refl, (h, tt))
cut_lines (ch ∷ text) line h = elim (Bool-cases (ch == newline)) [
  | inl here ↦
      let (first, others, e, a) = cut_lines text [] tt in
      (line, cut [] text, rw (here, cut), (h, rw e a))
  | inr inside ↦
      let (first, others, e, a) =
        cut_lines text (line ++ ch ∷ [])
          (All-append _ line (ch ∷ []) h (ground (arith, inside), tt)) in
      (first, others, rw (inside, cut) e, a)
]

pub split_lines_lem :
    (text : List ℕ)
    → (first : List ℕ) × (others : List (List ℕ)) × (split_lines text ≡ first ∷ others)
      × All IsLine (first ∷ others)
unfolding split_lines
split_lines_lem text = cut_lines text [] tt
