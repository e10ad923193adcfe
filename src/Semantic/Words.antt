-- ===== src/Semantic/Words.antt =====
-- oversight_core/semantic.py, `_WORD_RE` and `_strip_zw`. A match of `\b([A-Za-z]+)\b` is a run of
-- word characters, as long as it can be, that are all letters from A to Z or a to z. Which
-- characters `re` counts as `\w` is a parameter.
pub mod Laws
use oversight.Prelude.{ℕ, Bool, true, false, ◌&&◌, List, [], ◌∷◌, ◌++◌, ◌==◌, if◌then◌else◌}
use oversight.Semantic.Case.{Text}

-- A run of word characters, or any other character.
pub data Piece : Type 0 where
  run : Text → Piece
  mark : ℕ → Piece

close : Text → List Piece
close [] = []
close (c ∷ cs) = run (c ∷ cs) ∷ []

module _ (is_word : ℕ → Bool) where
  -- The text in pieces, after the run that is open.
  pieces_from : Text → Text → List Piece
  pieces_from opened [] = close opened
  pieces_from opened (c ∷ text) = elim (is_word c) [
    | true ↦ pieces_from (opened ++ c ∷ []) text
    | false ↦ close opened ++ mark c ∷ pieces_from [] text
  ]

  unfoldable pub pieces : Text → List Piece
  unfolding pieces_from close
  pieces = pieces_from []

unfoldable pub join : List Piece → Text
join [] = []
join (run w ∷ ps) = w ++ join ps
join (mark c ∷ ps) = c ∷ join ps

-- `text.replace(ch, "")`
unfoldable pub remove : ℕ → Text → Text
remove ch [] = []
remove ch (c ∷ text) = let rest = remove ch text in if c == ch then rest else c ∷ rest

-- The four characters of `_ZW_CHARS`, in the loop's order.
unfoldable pub strip_zw : Text → Text
unfolding remove
strip_zw text = remove 0xfeff (remove 0x200d (remove 0x200c (remove 0x200b text)))
