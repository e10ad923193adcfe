-- ===== src/Semantic/Table.antt =====
-- oversight_core/semantic.py: the first table of synonym classes and its lookup.
pub mod Laws
use oversight.Prelude.{ℕ, ◌+◌, ◌%◌, none, some, List, [], ◌∷◌, codes, length, get_elem?}
use oversight.Table.{Table, text_eq, put_row}
use oversight.Semantic.Case.{Text, lower}

pub synonym_classes : List (List Text)
synonym_classes =
    (codes "begin" ∷ codes "start" ∷ codes "commence" ∷ [])
    ∷ (codes "large" ∷ codes "big" ∷ codes "substantial" ∷ [])
    ∷ (codes "fast" ∷ codes "quick" ∷ codes "rapid" ∷ [])
    ∷ (codes "show" ∷ codes "display" ∷ codes "present" ∷ [])
    ∷ (codes "use" ∷ codes "utilize" ∷ codes "employ" ∷ [])
    ∷ (codes "help" ∷ codes "assist" ∷ codes "aid" ∷ [])
    ∷ (codes "make" ∷ codes "create" ∷ codes "produce" ∷ [])
    ∷ (codes "get" ∷ codes "obtain" ∷ codes "acquire" ∷ [])
    ∷ (codes "find" ∷ codes "locate" ∷ codes "identify" ∷ [])
    ∷ (codes "tell" ∷ codes "inform" ∷ codes "notify" ∷ [])
    ∷ (codes "give" ∷ codes "provide" ∷ codes "supply" ∷ [])
    ∷ (codes "end" ∷ codes "finish" ∷ codes "conclude" ∷ [])
    ∷ (codes "small" ∷ codes "tiny" ∷ codes "minor" ∷ [])
    ∷ (codes "slow" ∷ codes "gradual" ∷ codes "deliberate" ∷ [])
    ∷ (codes "important" ∷ codes "critical" ∷ codes "significant" ∷ [])
    ∷ (codes "hard" ∷ codes "difficult" ∷ codes "challenging" ∷ [])
    ∷ (codes "easy" ∷ codes "simple" ∷ codes "straightforward" ∷ [])
    ∷ (codes "problem" ∷ codes "issue" ∷ codes "concern" ∷ [])
    ∷ (codes "answer" ∷ codes "response" ∷ codes "reply" ∷ [])
    ∷ (codes "question" ∷ codes "query" ∷ codes "inquiry" ∷ [])
    ∷ (codes "idea" ∷ codes "concept" ∷ codes "notion" ∷ [])
    ∷ (codes "plan" ∷ codes "strategy" ∷ codes "approach" ∷ [])
    ∷ (codes "result" ∷ codes "outcome" ∷ codes "consequence" ∷ [])
    ∷ (codes "however" ∷ codes "nevertheless" ∷ codes "nonetheless" ∷ [])
    ∷ (codes "therefore" ∷ codes "consequently" ∷ codes "thus" ∷ [])
    ∷ (codes "also" ∷ codes "additionally" ∷ codes "furthermore" ∷ [])
    ∷ (codes "but" ∷ codes "yet" ∷ codes "though" ∷ [])
    ∷ []

-- A member of a class: the class's number and the member's.
pub record Member : Type 0 where
  pub class_no : ℕ
  pub variant : ℕ

-- The inner loop of `_build_synonym_lookup`: `enumerate(cls)`, from `variant`.
add_members : ℕ → ℕ → List Text → Table Text Member → Table Text Member
add_members class_no variant [] lookup = lookup
add_members class_no variant (word ∷ cls) lookup =
    add_members class_no (variant + 1) cls
      (put_row (lower word) (record { class_no = class_no; variant = variant }) lookup)

-- The outer loop: `enumerate(SYNONYM_CLASSES)`, from `class_no`.
add_classes : ℕ → List (List Text) → Table Text Member → Table Text Member
add_classes class_no [] lookup = lookup
add_classes class_no (cls ∷ classes) lookup =
    add_classes (class_no + 1) classes (add_members class_no 0 cls lookup)

unfoldable pub synonym_lookup : Table Text Member
unfolding add_classes add_members put_row lower synonym_classes
synonym_lookup = add_classes 0 synonym_classes []

-- `SYNONYM_CLASSES[ci]`; the lookup holds numbers of classes only.
unfoldable pub class_of : ℕ → List Text
unfolding synonym_classes
class_of class_no = elim (get_elem? synonym_classes class_no) [ none ↦ [] | some cls ↦ cls ]

-- `cls[vi % len(cls)]`
unfoldable pub word_of : List Text → ℕ → Text
word_of cls variant = elim (get_elem? cls (variant % length cls)) [ none ↦ [] | some word ↦ word ]
