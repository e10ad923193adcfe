-- ===== src/Semantic/Lookup.antt =====
-- oversight_core/synonyms_v2.py: the lookup of the expanded table, in which the first entry of a
-- word stays.
pub mod Laws
use oversight.Prelude.{
  ℕ, ◌+◌, Bool, false, none, some, List, [], ◌∷◌, ◌==◌, ◌||◌, if◌then◌else◌, get_elem?,
}
use oversight.Table.{Table, text_eq, find_row}
use oversight.Semantic.Case.{Text, lower}
use oversight.Semantic.Classes.{SynonymClass, all_classes}
use oversight.Semantic.Table.{Member}

-- `" " in word`
unfoldable pub has_space : Text → Bool
has_space [] = false
has_space (c ∷ word) = c == b' ' || has_space word

-- A word without a space is entered, unless it stands in the lookup. The newest
-- entry stands first; the order of the dictionary is not read.
enter : Text → Member → Table Text Member → Table Text Member
unfolding has_space find_row lower
enter word m lookup =
    if has_space word
    then lookup
    else elim (find_row (lower word) lookup) [ none ↦ (lower word, m) ∷ lookup | some _ ↦ lookup ]

enter_members : ℕ → ℕ → List Text → Table Text Member → Table Text Member
unfolding enter
enter_members class_no variant [] lookup = lookup
enter_members class_no variant (word ∷ variants) lookup =
    enter_members class_no (variant + 1) variants
      (enter word (record { class_no = class_no; variant = variant }) lookup)

enter_classes : ℕ → List SynonymClass → Table Text Member → Table Text Member
unfolding enter_members
enter_classes class_no [] lookup = lookup
enter_classes class_no (cls ∷ classes) lookup =
    enter_classes (class_no + 1) classes (enter_members class_no 0 cls.variants lookup)

-- The part of speech, which no caller reads, is left out of an entry.
unfoldable pub lookup_v2 : Table Text Member
unfolding enter_classes all_classes
lookup_v2 = enter_classes 0 all_classes []

-- `_V2_CLASSES[ci].variants`; the lookup holds numbers of classes only.
unfoldable pub variants_of : ℕ → List Text
unfolding all_classes
variants_of class_no = elim (get_elem? all_classes class_no) [ none ↦ [] | some cls ↦ cls.variants ]
