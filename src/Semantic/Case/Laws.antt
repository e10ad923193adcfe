-- ===== src/Semantic/Case/Laws.antt =====
-- A word in lower case takes the pattern of another word, and gives itself back in lower case.
use oversight.Prelude.{
  ℕ, ◌≤◌, ◌≡◌, refl, ap, ◌∙◌, Bool, true, false, not, ◌&&◌, ◌||◌, [], ◌∷◌, ◌++◌, length, arith, sym,
  if◌then◌else◌, take, drop,
}
use oversight.Semantic.Case.{
  Text, is_upper, is_lower, is_letter, lower_char, upper_char, lower, upper, all, isupper,
  case_preserve,
}

and_false : (b : Bool) → (b && false) ≡ false
and_false true = refl
and_false false = refl

-- The tests of a character.
lower-upper_char : (c : ℕ) → is_lower c ≡ true → lower_char (upper_char c) ≡ c
lower-upper_char c h = ground arith

lower_char_same : (c : ℕ) → is_lower c ≡ true → lower_char c ≡ c
lower_char_same c h = ground arith

upper_char-is_upper : (c : ℕ) → is_lower c ≡ true → is_upper (upper_char c) ≡ true
upper_char-is_upper c h = ground arith

not_both : (c : ℕ) → is_upper c ≡ true → is_lower c ≡ false
not_both c h = ground arith

lower-is_upper : (c : ℕ) → is_lower c ≡ true → is_upper c ≡ false
lower-is_upper c h = ground arith

-- A word of a class: two letters or more, all in lower case.
module _ (p : ℕ → Bool) where
  pub all_head : (c : ℕ) (cs : Text) → all p (c ∷ cs) ≡ true → p c ≡ true
  unfolding all
  all_head c cs h = ground arith

  pub all_tail : (c : ℕ) (cs : Text) → all p (c ∷ cs) ≡ true → all p cs ≡ true
  unfolding all
  all_tail c cs h = ground arith

lower-upper : (r : Text) → all is_lower r ≡ true → lower (upper r) ≡ r
unfolding lower upper
lower-upper [] h = refl
lower-upper (c ∷ cs) h =
    let e = lower-upper_char c (all_head is_lower c cs h) in
    let ih = lower-upper cs (all_tail is_lower c cs h) in cc

lower_same : (r : Text) → all is_lower r ≡ true → lower r ≡ r
unfolding lower
lower_same [] h = refl
lower_same (c ∷ cs) h =
    let e = lower_char_same c (all_head is_lower c cs h) in
    let ih = lower_same cs (all_tail is_lower c cs h) in cc

upper-all : (r : Text) → all is_lower r ≡ true → all (λ c. not (is_lower c)) (upper r) ≡ true
unfolding upper all
upper-all [] h = refl
upper-all (c ∷ cs) h =
    let u = not_both (upper_char c) (upper_char-is_upper c (all_head is_lower c cs h)) in
    rw (u, upper-all cs (all_tail is_lower c cs h))

-- Which pattern a word has.
pub isupper-upper :
    (c : ℕ) (cs : Text) → all is_lower (c ∷ cs) ≡ true → isupper (upper (c ∷ cs)) ≡ true
unfolding isupper all upper
isupper-upper c cs h =
    let u = upper_char-is_upper c (all_head is_lower c cs h) in
    let t = upper-all cs (all_tail is_lower c cs h) in rw (u, not_both (upper_char c) u, t)

isupper_lower : (r : Text) (c : ℕ) (cs : Text) → r ≡ c ∷ cs → is_lower c ≡ true → isupper r ≡ false
unfolding isupper all
isupper_lower r c cs e h = rw (e, h) (and_false _)

-- A title: a capital before a letter in lower case.
isupper_title : (u c : ℕ) (cs : Text) → is_lower c ≡ true → isupper (u ∷ c ∷ cs) ≡ false
unfolding isupper all
isupper_title u c cs h = rw h (
    ap (λ t. not (not (is_upper u) && (not (is_upper c) && all (λ c'. not (is_upper c')) cs)) && t)
      (and_false (not (is_lower u)))
    ∙ and_false _)

isupper_one : (u : ℕ) → isupper (u ∷ []) ≡ is_upper u
unfolding isupper all
isupper_one u = ground arith

-- What `case_preserve` tests of a word: all capitals, then a capital first.
pattern_of : Text → Bool × Bool
pattern_of o = (isupper o, isupper (take 1 o))

case_preserve_by : Bool × Bool → Text → Text
case_preserve_by (capitals, title) r =
    if capitals then upper r else if title then upper (take 1 r) ++ drop 1 r else lower r

case_preserve_pattern : (r o : Text) → case_preserve r o ≡ case_preserve_by (pattern_of o) r
unfolding case_preserve case_preserve_by pattern_of
case_preserve_pattern r o = refl

case_preserve_by_or :
    (capitals title : Bool) (s : Text)
    → case_preserve_by (capitals, capitals || title) s ≡ case_preserve_by (capitals, title) s
unfolding case_preserve_by
case_preserve_by_or true title s = refl
case_preserve_by_or false title s = refl

letter-upper_char : (c : ℕ) → is_lower c ≡ true → is_letter (upper_char c) ≡ true
letter-upper_char c h = ground arith

letters-upper : (r : Text) → all is_lower r ≡ true → all is_letter (upper r) ≡ true
unfolding all upper
letters-upper [] h = refl
letters-upper (c ∷ cs) h =
    rw (letter-upper_char c (all_head is_lower c cs h))
      (letters-upper cs (all_tail is_lower c cs h))

letters_lower : (r : Text) → all is_lower r ≡ true → all is_letter r ≡ true
unfolding all
letters_lower [] h = refl
letters_lower (c ∷ cs) h =
    let e = all_head is_lower c cs h in
    let t = letters_lower cs (all_tail is_lower c cs h) in ground (arith, e, t)

module _ (c d : ℕ) (cs : Text) (h : all is_lower (c ∷ d ∷ cs) ≡ true) where
  letters : (is_lower c ≡ true) × (is_lower d ≡ true) × (all is_lower (d ∷ cs) ≡ true)
  letters =
      let t = all_tail is_lower c (d ∷ cs) h in
      (all_head is_lower c (d ∷ cs) h, all_head is_lower d cs t, t)

  upper_one : isupper (upper_char c ∷ []) ≡ true
  upper_one = isupper_one (upper_char c) ∙ upper_char-is_upper c letters.0

  lower_all : lower (c ∷ d ∷ cs) ≡ c ∷ d ∷ cs
  lower_all = lower_same (c ∷ d ∷ cs) h

  -- The pattern that is given is the pattern that is found.
  pattern_kept :
      (capitals title : Bool)
      → pattern_of (case_preserve_by (capitals, title) (c ∷ d ∷ cs)) ≡ (capitals, capitals || title)
  unfolding pattern_of case_preserve_by
  pattern_kept true title =
      let e : isupper (take 1 (upper (c ∷ d ∷ cs))) ≡ true = unfold upper in upper_one in
      rw (isupper-upper c (d ∷ cs) h, e)
  pattern_kept false true =
      let e : isupper (upper_char c ∷ d ∷ cs) ≡ false =
        isupper_title (upper_char c) d cs letters.1 in
      let k : upper (c ∷ []) ≡ upper_char c ∷ [] = unfold upper in refl in rw (k, e, upper_one)
  pattern_kept false false =
      let e : isupper (c ∷ d ∷ cs) ≡ false = isupper_lower (c ∷ d ∷ cs) c (d ∷ cs) refl letters.0 in
      let k : isupper (c ∷ []) ≡ false = isupper_lower (c ∷ []) c [] refl letters.0 in
      rw (lower_all, e, k)

  lower-case_preserve_by : (k : Bool × Bool) → lower (case_preserve_by k (c ∷ d ∷ cs)) ≡ c ∷ d ∷ cs
  unfolding case_preserve_by
  lower-case_preserve_by (true, title) = lower-upper (c ∷ d ∷ cs) h
  lower-case_preserve_by (false, true) =
      let e = lower-upper_char c letters.0 in
      let t = lower_same (d ∷ cs) letters.2 in unfold lower upper in rw e (ap (◌∷◌ c) t)
  lower-case_preserve_by (false, false) = rw lower_all lower_all

  letters-case_preserve_by :
      (k : Bool × Bool) → all is_letter (case_preserve_by k (c ∷ d ∷ cs)) ≡ true
  unfolding case_preserve_by
  letters-case_preserve_by (true, title) = letters-upper (c ∷ d ∷ cs) h
  letters-case_preserve_by (false, true) =
      let e = letter-upper_char c letters.0 in
      unfold all upper in rw e (letters_lower (d ∷ cs) letters.2)
  letters-case_preserve_by (false, false) = rw lower_all (letters_lower (c ∷ d ∷ cs) h)

  long_lower : (o : Text) → lower (case_preserve (c ∷ d ∷ cs) o) ≡ c ∷ d ∷ cs
  long_lower o = rw (case_preserve_pattern (c ∷ d ∷ cs) o) (lower-case_preserve_by (pattern_of o))

  long_letters : (o : Text) → all is_letter (case_preserve (c ∷ d ∷ cs) o) ≡ true
  long_letters o =
      rw (case_preserve_pattern (c ∷ d ∷ cs) o) (letters-case_preserve_by (pattern_of o))

  long_twice : (s o : Text) → case_preserve s (case_preserve (c ∷ d ∷ cs) o) ≡ case_preserve s o
  long_twice s o =
      let r = c ∷ d ∷ cs in
      let (capitals, title) = pattern_of o in
      case_preserve_pattern s (case_preserve r o)
      ∙ ap (λ k. case_preserve_by k s)
          (ap pattern_of (case_preserve_pattern r o) ∙ pattern_kept capitals title)
      ∙ case_preserve_by_or capitals title s
      ∙ sym (case_preserve_pattern s o)

-- A word of two letters at least, in lower case, gives itself back.
pub lower-case_preserve :
    (r o : Text) → all is_lower r ≡ true → 2 ≤ length r → lower (case_preserve r o) ≡ r
lower-case_preserve [] o h l = absurd (omega arith)
lower-case_preserve (c ∷ []) o h l = absurd (omega arith)
lower-case_preserve (c ∷ d ∷ cs) o h l = long_lower c d cs h o

pub letters-case_preserve :
    (r o : Text) → all is_lower r ≡ true → 2 ≤ length r → all is_letter (case_preserve r o) ≡ true
letters-case_preserve [] o h l = absurd (omega arith)
letters-case_preserve (c ∷ []) o h l = absurd (omega arith)
letters-case_preserve (c ∷ d ∷ cs) o h l = long_letters c d cs h o

-- A word that takes the pattern of such a word takes the pattern of the original.
pub case_preserve_twice :
    (r s o : Text)
    → all is_lower r ≡ true
    → 2 ≤ length r
    → case_preserve s (case_preserve r o) ≡ case_preserve s o
case_preserve_twice [] s o h l = absurd (omega arith)
case_preserve_twice (c ∷ []) s o h l = absurd (omega arith)
case_preserve_twice (c ∷ d ∷ cs) s o h l = long_twice c d cs h s o
