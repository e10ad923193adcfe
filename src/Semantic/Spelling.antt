-- ===== src/Semantic/Spelling.antt =====
-- oversight_core/semantic.py: marks in spelling and in contractions. Which characters `re` takes as
-- equal when it ignores case, and `str.lower` of a whole text, are parameters. `none` is the
-- `ZeroDivisionError` of an empty mark.
use oversight.Prelude.{
  ℕ, zero, suc, ◌+◌, ◌-◌, ◌/◌, ◌%◌, ◌^◌, Bool, true, false, not, ◌&&◌, ◌||◌, Option, none, some,
  ◌>>=◌, List, [], ◌∷◌, ◌++◌, Bytes, codes, length, take, get_elem?, ◌==◌, if◌then◌else◌,
}
use oversight.Table.{Table, text_eq, find_row, put_row}
use oversight.Semantic.Case.{Text, lower, all, is_letter, case_preserve}
use oversight.Semantic.Words.{Piece, run, mark, pieces}

-- `_bit_for`
unfoldable pub bit_for : Bytes → ℕ → Option ℕ
bit_for [] bit_index = none
bit_for (b ∷ bs) bit_index = do
  byte ← get_elem? (b ∷ bs) (bit_index % length (b ∷ bs))
  some (byte / 2 ^ (bit_index % 8) % 2)

spelling_variants : List (Text × Text)
spelling_variants =
    (codes "color", codes "colour")
    ∷ (codes "favor", codes "favour")
    ∷ (codes "honor", codes "honour")
    ∷ (codes "humor", codes "humour")
    ∷ (codes "labor", codes "labour")
    ∷ (codes "neighbor", codes "neighbour")
    ∷ (codes "behavior", codes "behaviour")
    ∷ (codes "organization", codes "organisation")
    ∷ (codes "realize", codes "realise")
    ∷ (codes "analyze", codes "analyse")
    ∷ (codes "optimize", codes "optimise")
    ∷ (codes "authorize", codes "authorise")
    ∷ (codes "recognize", codes "recognise")
    ∷ (codes "customize", codes "customise")
    ∷ (codes "minimize", codes "minimise")
    ∷ (codes "maximize", codes "maximise")
    ∷ (codes "defense", codes "defence")
    ∷ (codes "offense", codes "offence")
    ∷ (codes "license", codes "licence")
    ∷ (codes "catalog", codes "catalogue")
    ∷ (codes "program", codes "programme")
    ∷ (codes "center", codes "centre")
    ∷ (codes "meter", codes "metre")
    ∷ (codes "fiber", codes "fibre")
    ∷ (codes "theater", codes "theatre")
    ∷ []

contractions : List (Text × Text)
contractions =
    (codes "don't", codes "do not")
    ∷ (codes "doesn't", codes "does not")
    ∷ (codes "didn't", codes "did not")
    ∷ (codes "won't", codes "will not")
    ∷ (codes "wouldn't", codes "would not")
    ∷ (codes "shouldn't", codes "should not")
    ∷ (codes "couldn't", codes "could not")
    ∷ (codes "isn't", codes "is not")
    ∷ (codes "aren't", codes "are not")
    ∷ (codes "wasn't", codes "was not")
    ∷ (codes "weren't", codes "were not")
    ∷ (codes "hasn't", codes "has not")
    ∷ (codes "haven't", codes "have not")
    ∷ (codes "hadn't", codes "had not")
    ∷ (codes "can't", codes "cannot")
    ∷ (codes "it's", codes "it is")
    ∷ (codes "that's", codes "that is")
    ∷ (codes "there's", codes "there is")
    ∷ (codes "they're", codes "they are")
    ∷ (codes "we're", codes "we are")
    ∷ (codes "you're", codes "you are")
    ∷ (codes "I'm", codes "I am")
    ∷ (codes "he's", codes "he is")
    ∷ (codes "she's", codes "she is")
    ∷ (codes "we've", codes "we have")
    ∷ (codes "they've", codes "they have")
    ∷ (codes "I've", codes "I have")
    ∷ (codes "you've", codes "you have")
    ∷ (codes "we'll", codes "we will")
    ∷ (codes "they'll", codes "they will")
    ∷ []

-- One round of the loop that fills `_SPELLING_LOOKUP`.
unfoldable pub enter_spellings : ℕ → List (Text × Text) → Table Text (ℕ × ℕ) → Table Text (ℕ × ℕ)
unfolding put_row lower
enter_spellings si [] lookup = lookup
enter_spellings si ((american, british) ∷ variants) lookup =
    enter_spellings (si + 1) variants
      (put_row (lower british) (si, 1) (put_row (lower american) (si, 0) lookup))

unfoldable pub spelling_lookup : Table Text (ℕ × ℕ)
unfolding enter_spellings spelling_variants
spelling_lookup = enter_spellings 0 spelling_variants []

unfoldable pub spelling_of : Text → Option (ℕ × ℕ)
unfolding all lower find_row spelling_lookup
spelling_of w = if all is_letter w then find_row (lower w) spelling_lookup else none

abbrev add_found : Option (ℕ × ℕ) → List (ℕ × ℕ) → List (ℕ × ℕ)
add_found none found = found
add_found (some pair) found = pair ∷ found

unfoldable pub spellings_in : List Piece → List (ℕ × ℕ)
unfolding spelling_of
spellings_in [] = []
spellings_in (run w ∷ ps) = add_found (spelling_of w) (spellings_in ps)
spellings_in (mark c ∷ ps) = spellings_in ps

unfoldable pub extract_spelling_bits : (ℕ → Bool) → Text → List (ℕ × ℕ)
unfolding spellings_in pieces
extract_spelling_bits is_word text = spellings_in (pieces is_word text)

module _ (same_letter : ℕ → ℕ → Bool) where
  unfoldable pub starts_with : Text → Text → Bool
  starts_with [] text = true
  starts_with (p ∷ pattern') [] = false
  starts_with (p ∷ pattern') (c ∷ text) = same_letter p c && starts_with pattern' text

  -- `pattern.sub`, for a literal that is not empty; `skip` characters belong to the last match. The
  -- case of a match is read off its letters A to Z and a to z: a match with U+017F or U+212A, which
  -- `re.IGNORECASE` takes for s and k, is outside the model.
  unfoldable pub sub_from : Text → Text → ℕ → Text → Text
  unfolding starts_with case_preserve
  sub_from literal target skip [] = []
  sub_from literal target (suc skip) (c ∷ text) = sub_from literal target skip text
  sub_from literal target zero (c ∷ text) = elim (starts_with literal (c ∷ text)) [
    | true ↦
        case_preserve target (take (length literal) (c ∷ text))
        ++ sub_from literal target (length literal - 1) text
    | false ↦ c ∷ sub_from literal target zero text
  ]

  -- The loop of `embed_spelling`, from variant `si`.
  unfoldable pub spell_from : Bytes → ℕ → List (Text × Text) → Text → Option Text
  unfolding bit_for sub_from
  spell_from mark_id si [] text = some text
  spell_from mark_id si ((american, british) ∷ variants) text = do
    bit ← bit_for mark_id (si + 8)
    spell_from mark_id (si + 1) variants
        (if bit == 0 then sub_from british american 0 text else sub_from american british 0 text)

  unfoldable pub embed_spelling : Text → Bytes → Option Text
  unfolding spell_from spelling_variants
  embed_spelling text mark_id = spell_from mark_id 0 spelling_variants text

  -- The loop of `embed_contractions`, from contraction `ci`.
  unfoldable pub contract_from : Bytes → ℕ → List (Text × Text) → Text → Option Text
  unfolding bit_for sub_from
  contract_from mark_id ci [] text = some text
  contract_from mark_id ci ((contracted, expanded) ∷ rest) text = do
    bit ← bit_for mark_id (ci + 40)
    contract_from mark_id (ci + 1) rest (
        if bit == 0
        then sub_from expanded contracted 0 text
        else sub_from contracted expanded 0 text)

  unfoldable pub embed_contractions : Text → Bytes → Option Text
  unfolding contract_from contractions
  embed_contractions text mark_id = contract_from mark_id 0 contractions text

-- `part in text`
unfoldable pub begins : Text → Text → Bool
begins [] text = true
begins (p ∷ part) [] = false
begins (p ∷ part) (c ∷ text) = p == c && begins part text

unfoldable pub within : Text → Text → Bool
unfolding begins
within part [] = begins part []
within part (c ∷ text) = begins part (c ∷ text) || within part text

unfoldable pub contractions_in : ℕ → List (Text × Text) → Text → List (ℕ × ℕ)
unfolding within lower
contractions_in ci [] text = []
contractions_in ci ((contracted, expanded) ∷ rest) text =
    let has_contracted = within (lower contracted) text in
    let has_expanded = within (lower expanded) text in
    let found = contractions_in (ci + 1) rest text in
    if has_contracted && not has_expanded
    then (ci, 0) ∷ found
    else if has_expanded && not has_contracted
    then (ci, 1) ∷ found
    else found

unfoldable pub extract_contraction_bits : (Text → Text) → Text → List (ℕ × ℕ)
unfolding contractions_in contractions
extract_contraction_bits lower_text text = contractions_in 0 contractions (lower_text text)
