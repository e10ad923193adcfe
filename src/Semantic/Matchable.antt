-- ===== src/Semantic/Matchable.antt =====
-- oversight_core/synonyms_v2.py, `iter_matchable_words`. The spans that the patterns of
-- `_SKIP_PATTERNS` match in a text are a parameter, as `re` is not modelled.
pub mod Laws
use oversight.Prelude.{
  ℕ, ◌+◌, Bool, true, false, not, ◌&&◌, ◌||◌, Option, none, List, [], ◌∷◌, length, take, drop,
  replicate, ltb, leb, ◌==◌, if◌then◌else◌,
}
use oversight.Table.{text_eq, find_row}
use oversight.Semantic.Case.{Text, lower, all, is_letter, isupper}
use oversight.Semantic.Lookup.{lookup_v2}
use oversight.Semantic.Table.{Member}

-- `for i in range(m.start(), m.end())`, over the mask from index `i` on.
unfoldable pub cover : ℕ → ℕ → ℕ → List Bool → List Bool
cover start end i [] = []
cover start end i (skipped ∷ mask) =
    (if leb start i && ltb i end then true else skipped) ∷ cover start end (i + 1) mask

unfoldable pub cover_all : List (ℕ × ℕ) → List Bool → List Bool
unfolding cover
cover_all [] mask = mask
cover_all ((start, end) ∷ spans) mask = cover_all spans (cover start end 0 mask)

unfoldable pub skip_mask : List (ℕ × ℕ) → Text → List Bool
unfolding cover_all
skip_mask spans text = cover_all spans (replicate (length text) false)

unfoldable pub any_set : List Bool → Bool
any_set [] = false
any_set (skipped ∷ mask) = skipped || any_set mask

-- The body of the loop, for a run of word characters at `start`.
unfoldable pub matchable : List Bool → ℕ → Text → Option Member
unfolding any_set all isupper lower find_row lookup_v2
matchable mask start word =
    if not (all is_letter word)
    then none
    else if any_set (take (length word) (drop start mask))
    then none
    else if isupper word || isupper (take 1 word) && not (start == 0)
    then none
    else find_row (lower word) lookup_v2
