-- ===== src/Semantic/Lookup/Laws.antt =====
-- oversight_core/synonyms_v2.py: what the entries of the expanded lookup point at.
use oversight.Prelude.{
  ℕ, ◌≡◌, inl, inr, refl, Bool, true, false, ◌&&◌, ◌==◌, Option, none, some, List, [], ◌∷◌, beq,
  beq_iff, length, arith, get_elem?, Bool-cases, Option-cases,
}
use oversight.Result.{some_inj}
use oversight.Table.{Table, text_eq, find_row}
use oversight.Semantic.Case.{Text, lower}
use oversight.Semantic.Lookup.{lookup_v2, variants_of}
use oversight.Semantic.Table.{Member}

-- `word` stands in the list at the index.
abbrev pub Stands : List Text → ℕ → Text → Type 0
Stands cls i word = get_elem? cls i ≡ some word

spelled : Text → Option Text → Bool
unfolding lower
spelled key none = false
spelled key (some word) = beq (lower word) key

points : Text → Member → Bool
unfolding spelled variants_of
points key m =
    (length (variants_of m.class_no) == 3)
    && spelled key (get_elem? (variants_of m.class_no) m.variant)

all_point : Table Text Member → Bool
unfolding points
all_point [] = true
all_point ((key, m) ∷ t) = points key m && all_point t

lookup_v2_points : all_point lookup_v2 ≡ true
unfolding all_point points spelled lower variants_of lookup_v2
lookup_v2_points = refl

-- A word of the lookup is, in lower case, the variant that its entry points at, in a class of three.
pub record IsEntry (word : Text) (m : Member) : Type 0 where
  pub own : Text
  pub three : length (variants_of m.class_no) ≡ 3
  pub stands : Stands (variants_of m.class_no) m.variant own
  pub same : lower own ≡ word

and-true : (a b : Bool) → (a && b) ≡ true → (a ≡ true) × (b ≡ true)
and-true a b h = ground arith

three_true : (n : ℕ) → (n == 3) ≡ true → n ≡ 3
three_true n h = ground arith

points-IsEntry : (key : Text) (m : Member) → points key m ≡ true → IsEntry key m
unfolding points spelled
points-IsEntry key m h =
    let cls = variants_of m.class_no in
    let (n, w) = and-true (length cls == 3) (spelled key (get_elem? cls m.variant)) h in
    elim (Option-cases (get_elem? cls m.variant)) [
      | inl e ↦ let c : spelled key none ≡ true = rw e at w in absurd (cc)
      | inr (own, e) ↦
          let c : beq (lower own) key ≡ true = rw e at w in
          record {
            own = own;
            three = three_true (length cls) n;
            stands = e;
            same = (beq_iff (lower own) key).0 c;
          }
    ]

find_row-points :
    (key : Text) (m : Member) (t : Table Text Member)
    → all_point t ≡ true
    → find_row key t ≡ some m
    → points key m ≡ true
unfolding all_point find_row
find_row-points key m [] h e = cc
find_row-points key m ((j, x) ∷ t) h e =
    let (here, later) = and-true (points j x) (all_point t) h in
    elim (Bool-cases (beq j key)) [
      | inl same ↦
          let p : x ≡ m = some_inj (rw same at e) in
          let q : j ≡ key = (beq_iff j key).0 same in rw (p, q) at here
      | inr other ↦ find_row-points key m t later (rw other at e)
    ]

pub lookup_v2-IsEntry :
    (word : Text) (m : Member) → find_row word lookup_v2 ≡ some m → IsEntry word m
lookup_v2-IsEntry word m h =
    points-IsEntry word m (find_row-points word m lookup_v2 lookup_v2_points h)
