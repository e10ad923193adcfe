-- ===== src/Semantic/Matchable/Laws.antt =====
-- A word that is taken touches no skipped span, and has no capitals that could be a name's.
use oversight.Prelude.{
  ℕ, zero, suc, ◌+◌, ◌≤◌, ◌<◌, ◌≡◌, ◌⊎◌, inl, inr, refl, ap, ◌∙◌, Bool, true, false, not, ◌&&◌,
  ◌||◌, Option, none, some, List, [], ◌∷◌, length, take, drop, replicate, ◌==◌, if◌then◌else◌,
  get_elem?, arith, All, get_elem?-drop, length-take, length-drop, min, ◌-◌, sym, get_elem?-take,
  length-replicate,
}
use oversight.Table.{text_eq, find_row}
use oversight.Semantic.Case.{Text, lower, all, is_letter, isupper}
use oversight.Semantic.Lookup.{lookup_v2}
use oversight.Semantic.Table.{Member}
use oversight.Semantic.Matchable.{cover, cover_all, skip_mask, any_set, matchable}

length-cover : (a b j : ℕ) (mask : List Bool) → length (cover a b j mask) ≡ length mask
unfolding cover
length-cover a b j [] = refl
length-cover a b j (s ∷ mask) = ap suc (length-cover a b (j + 1) mask)

-- An entry that is not set was not, and lies outside the span.
cover-false :
    (a b j : ℕ) (mask : List Bool) (i : ℕ)
    → get_elem? (cover a b j mask) i ≡ some false
    → (get_elem? mask i ≡ some false) × (a ≤ j + i → j + i < b → ⊥)
unfolding cover
cover-false a b j [] i h = cc
cover-false a b j (s ∷ mask) zero h = (ground arith, λ u v. ground arith)
cover-false a b j (s ∷ mask) (suc i) h =
    let (p, q) = cover-false a b (j + 1) mask i h in (p, λ u v. q (omega arith) (omega arith))

-- No span holds the index.
abbrev pub Avoids : List (ℕ × ℕ) → ℕ → Type 0
Avoids spans i = All (λ s. s.0 ≤ i → i < s.1 → ⊥) spans

cover_all-false :
    (spans : List (ℕ × ℕ)) (mask : List Bool) (i : ℕ)
    → get_elem? (cover_all spans mask) i ≡ some false
    → (get_elem? mask i ≡ some false) × Avoids spans i
unfolding cover_all
cover_all-false [] mask i h = (h, tt)
cover_all-false ((a, b) ∷ spans) mask i h =
    let (p, rest) = cover_all-false spans (cover a b 0 mask) i h in
    let (q, out) = cover-false a b 0 mask i p in
    (q, ((λ u v. out (omega arith) (omega arith)), rest))

length-cover_all :
    (spans : List (ℕ × ℕ)) (mask : List Bool) → length (cover_all spans mask) ≡ length mask
unfolding cover_all
length-cover_all [] mask = refl
length-cover_all ((a, b) ∷ spans) mask =
    length-cover_all spans (cover a b 0 mask) ∙ length-cover a b 0 mask

any_set-false :
    (mask : List Bool) (i : ℕ)
    → any_set mask ≡ false
    → i < length mask
    → get_elem? mask i ≡ some false
unfolding any_set
any_set-false [] i h l = absurd (omega arith)
any_set-false (true ∷ mask) i h l = cc
any_set-false (false ∷ mask) zero h l = refl
any_set-false (false ∷ mask) (suc i) h l = any_set-false mask i h (omega arith)

any_set_slice :
    (mask : List Bool) (start n i : ℕ)
    → any_set (take n (drop start mask)) ≡ false
    → start ≤ i
    → i < start + n
    → i < length mask
    → get_elem? mask i ≡ some false
any_set_slice mask start n i h a b l =
    let slice = take n (drop start mask) in
    let k = i - start in
    let size : length slice ≡ min n (length mask - start) =
      length-take n (drop start mask) ∙ ap (min n) (length-drop start mask) in
    let e : start + k ≡ i = omega arith in
    ap (get_elem? mask) (sym e)
    ∙ sym (get_elem?-drop start mask k)
    ∙ sym (get_elem?-take n (drop start mask) k (omega arith))
    ∙ any_set-false slice k h (omega arith)

-- What is asked of a word at `start` that is taken.
pub record IsTaken (spans : List (ℕ × ℕ)) (text : Text) (start : ℕ) (word : Text) (m : Member)
    : Type 0 where
  pub outside : (i : ℕ) → start ≤ i → i < start + length word → i < length text → Avoids spans i
  pub no_term : isupper word ≡ false
  pub no_name : (start ≡ 0) ⊎ (isupper (take 1 word) ≡ false)
  pub known : find_row (lower word) lookup_v2 ≡ some m

length-skip_mask :
    (spans : List (ℕ × ℕ)) (text : Text) → length (skip_mask spans text) ≡ length text
unfolding skip_mask
length-skip_mask spans text =
    length-cover_all spans (replicate (length text) false) ∙ length-replicate (length text) false

taken :
    (letters skipped capital : Bool) (o : Option Member) (m : Member)
    → (if not letters then none else if skipped then none else if capital then none else o) ≡ some m
    → (skipped ≡ false) × (capital ≡ false) × (o ≡ some m)
taken false skipped capital o m h = cc
taken true true capital o m h = cc
taken true false true o m h = cc
taken true false false o m h = (refl, refl, h)

plain_cases :
    (term name : Bool) (start : ℕ)
    → (term || name && not (start == 0)) ≡ false
    → (term ≡ false) × ((start ≡ 0) ⊎ (name ≡ false))
plain_cases true name start h = cc
plain_cases false false start h = (refl, inr refl)
plain_cases false true zero h = (refl, inl refl)
plain_cases false true (suc start) h = absurd (ground arith)

pub matchable-IsTaken :
    (spans : List (ℕ × ℕ)) (text : Text) (start : ℕ) (word : Text) (m : Member)
    → matchable (skip_mask spans text) start word ≡ some m
    → IsTaken spans text start word m
unfolding matchable skip_mask
matchable-IsTaken spans text start word m h =
    let mask = skip_mask spans text in
    let capital = isupper word || isupper (take 1 word) && not (start == 0) in
    let skipped = any_set (take (length word) (drop start mask)) in
    let (free, plain, found) =
      taken (all is_letter word) skipped capital (find_row (lower word) lookup_v2) m h in
    let (no_term, no_name) = plain_cases (isupper word) (isupper (take 1 word)) start plain in
    record {
      outside = λ i a b l.
          (cover_all-false spans (replicate (length text) false) i (
            any_set_slice mask start (length word) i free a b
              (rw (length-skip_mask spans text) l))).1;
      no_term = no_term;
      no_name = no_name;
      known = found;
    }
