-- ===== src/L3Policy/Regions.antt =====
-- oversight_core/l3_policy.py, `apply_l3_safe`. What `str.splitlines`, `str.strip` and the patterns
-- answer is a parameter. `none` is an exception of a layer that is called.
pub mod Kept
pub mod Examples
use oversight.Prelude.{
  ℕ, ◌+◌, ◌-◌, Bool, true, false, not, ◌&&◌, ◌||◌, Option, none, some, ◌>>=◌, List, [], ◌∷◌, ◌++◌,
  Bytes, codes, beq, length, ltb, leb, if◌then◌else◌,
}
use oversight.Semantic.Case.{Text}
use oversight.Semantic.Expanded.{embed_synonyms_v2}
use oversight.Semantic.Spelling.{begins, embed_spelling, embed_contractions}

-- The lines with their ends, a text without the blanks around it, the tests of `_line_is_protected`
-- and of boilerplate words, and the parts between and of quotations, in turn.
pub record Splitting : Type 0 where
  pub splitlines : Text → List Text
  pub strip : Text → Text
  pub is_protected : Text → Bool
  pub names_boilerplate : Text → Bool
  pub split_quotes : Text → List Text

unfoldable pub concat : List Text → Text
concat [] = []
concat (t ∷ ts) = t ++ concat ts

-- `_is_boilerplate_line`; `total - 6` stops at 0 as `max` makes it.
unfoldable pub is_boilerplate_line : Splitting → Text → ℕ → ℕ → Bool
is_boilerplate_line s line idx total =
    if ltb idx 6 || leb (total - 6) idx then true else s.names_boilerplate line

unfoldable pub is_fence : Splitting → Text → Bool
unfolding begins
is_fence s line = begins (codes "```") (s.strip line)

module _ (s : Splitting) (mark_segment : Text → Option Text) where
  -- The loop over the parts; `outside` at the even ones.
  unfoldable pub mark_parts : Bool → List Text → Option (List Text)
  mark_parts outside [] = some []
  mark_parts outside (part ∷ parts) = do
    part' ← if outside && not (beq (s.strip part) []) then mark_segment part else some part
    parts' ← mark_parts (not outside) parts
    some (part' ∷ parts')

  -- `_apply_l3_to_unquoted_segments`
  unfoldable pub mark_unquoted : Text → Option Text
  unfolding mark_parts concat
  mark_unquoted line = do parts ← mark_parts true (s.split_quotes line); some (concat parts)

  -- A line that is not a fence.
  unfoldable pub mark_line : Bool → ℕ → ℕ → Bool → Text → Option Text
  unfolding is_boilerplate_line mark_unquoted
  mark_line boilerplate total idx code_fence line =
      if code_fence || s.is_protected line
      then some line
      else if boilerplate && not (is_boilerplate_line s line idx total)
      then some line
      else mark_unquoted line

  -- The loop over the lines, from line `idx`.
  unfoldable pub mark_lines : Bool → ℕ → ℕ → Bool → List Text → Option (List Text)
  unfolding is_fence mark_line
  mark_lines boilerplate total idx code_fence [] = some []
  mark_lines boilerplate total idx code_fence (line ∷ lines) =
      let fence = is_fence s line in
      do
        line' ← if fence then some line else mark_line boilerplate total idx code_fence line
        lines' ←
            mark_lines boilerplate total (idx + 1) (if fence then not code_fence else code_fence)
              lines
        some (line' ∷ lines')

  unfoldable pub apply_lines : Text → Bytes → Option Text
  unfolding mark_lines concat
  apply_lines text mode = if beq mode (codes "off") then some text else (do
    let lines = s.splitlines text
    out ← mark_lines (beq mode (codes "boilerplate")) (length lines) 0 false lines
    some (concat out))

module _ (sha256 : Bytes → Bytes) (is_word : ℕ → Bool) (skip_spans : Text → List (ℕ × ℕ))
    (same_letter : ℕ → ℕ → Bool) where
  -- What is done to a segment: synonyms, spelling and contractions.
  unfoldable pub mark_segment_with : Bytes → Text → Option Text
  unfolding embed_synonyms_v2 embed_spelling embed_contractions
  mark_segment_with mark_id segment = do
    worded ← embed_synonyms_v2 sha256 is_word skip_spans segment mark_id 1
    spelled ← embed_spelling same_letter worded mark_id
    embed_contractions same_letter spelled mark_id

  unfoldable pub apply_l3_safe : Splitting → Text → Bytes → Bytes → Option Text
  unfolding apply_lines mark_segment_with
  apply_l3_safe s text mark_id mode = apply_lines s (mark_segment_with mark_id) text mode
