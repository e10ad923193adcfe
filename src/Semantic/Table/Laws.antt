-- ===== src/Semantic/Table/Laws.antt =====
-- The table of synonyms is sound: the lookup leads from every word of a class back to it.
use oversight.Prelude.{
  ℕ, zero, suc, ◌%◌, ◌≤◌, ◌<◌, ◌≡◌, refl, ap, ◌∙◌, Bool, true, false, ◌&&◌, none, some, List, [],
  ◌∷◌, leb, ◌==◌, length, arith, ==_iff, Option, beq, Bool-cases, inl, inr,
}
use oversight.Table.{Table, text_eq, find_row}
use oversight.Result.{some_inj}
use oversight.Semantic.Case.{Text, all, is_lower}
use oversight.Semantic.Table.{Member, synonym_lookup, class_of, word_of}

is_found : Option Member → ℕ → ℕ → Bool
is_found none class_no variant = false
is_found (some m) class_no variant = m.class_no == class_no && m.variant == variant

is_found_lem :
    (o : Option Member) (n v : ℕ)
    → is_found o n v ≡ true
    → o ≡ some (record { class_no = n; variant = v })
unfolding is_found
is_found_lem none n v h = cc
is_found_lem (some m) n v h = ground (arith, ==_iff m.class_no n, ==_iff m.variant v)

-- What marking relies on, of the class with this number: it has three words, each of two letters
-- or more in lower case, and the lookup leads from each of them back to it.
is_member : ℕ → ℕ → Bool
is_member class_no variant =
    let word = word_of (class_of class_no) variant in
    all is_lower word
    && leb 2 (length word)
    && is_found (find_row word synonym_lookup) class_no variant

is_class : ℕ → Bool
is_class n = length (class_of n) == 3 && is_member n 0 && is_member n 1 && is_member n 2

sound_entries : Table Text Member → Bool
sound_entries [] = true
sound_entries ((_, m) ∷ t) = is_class m.class_no && sound_entries t

lookup_sound : sound_entries synonym_lookup ≡ true
unfolding sound_entries is_class is_member class_of word_of all find_row is_found synonym_lookup
lookup_sound = refl

-- What marking relies on, for any number that a mark chooses.
pub record IsWord (n v : ℕ) : Type 0 where
  pub lowercase : all is_lower (word_of (class_of n) v) ≡ true
  pub long : 2 ≤ length (word_of (class_of n) v)
  pub found :
      find_row (word_of (class_of n) v) synonym_lookup
      ≡ some (record { class_no = n; variant = v % length (class_of n) })

le_of_leb : (a b : ℕ) → leb a b ≡ true → a ≤ b
le_of_leb a b h = ground arith

and-true : (a b : Bool) → (a && b) ≡ true → (a ≡ true) × (b ≡ true)
and-true a b h = ground arith

find_row-is_class :
    (key : Text) (m : Member) (t : Table Text Member)
    → sound_entries t ≡ true
    → find_row key t ≡ some m
    → is_class m.class_no ≡ true
unfolding sound_entries find_row
find_row-is_class key m [] h e = cc
find_row-is_class key m ((j, x) ∷ t) h e =
    let (here, later) = and-true (is_class x.class_no) (sound_entries t) h in
    elim (Bool-cases (beq j key)) [
      | inl same ↦ let p : x ≡ m = some_inj (rw same at e) in rw p at here
      | inr other ↦ find_row-is_class key m t later (rw other at e)
    ]

word_of_mod : (cls : List Text) (v : ℕ) → length cls ≡ 3 → word_of cls v ≡ word_of cls (v % 3)
unfolding word_of
word_of_mod cls v h =
    let e : v % length cls ≡ v % 3 % length cls = rw h (omega arith) in rw (e, word_of) refl

is_member-IsWord : (n v : ℕ) → length (class_of n) ≡ 3 → v < 3 → is_member n v ≡ true → IsWord n v
unfolding is_member
is_member-IsWord n v l lt h =
    let word = word_of (class_of n) v in
    let (b, d) = and-true _ (is_found (find_row word synonym_lookup) n v) h in
    let (a, c) = and-true (all is_lower word) (leb 2 (length word)) b in
    let e : v ≡ v % length (class_of n) = rw l (omega arith) in
    record {
      lowercase = a;
      long = le_of_leb 2 (length word) c;
      found =
          is_found_lem (find_row word synonym_lookup) n v d
          ∙ ap (λ k. some (record { class_no = n; variant = k })) e;
    }

three : (P : ℕ → Type 0) (v : ℕ) → v < 3 → P 0 → P 1 → P 2 → P v
three P zero h a b c = a
three P (suc zero) h a b c = b
three P (suc (suc zero)) h a b c = c
three P (suc (suc (suc v))) h a b c = absurd (omega arith)

is_class_parts :
    (n : ℕ)
    → is_class n ≡ true
    → ((length (class_of n) == 3) ≡ true)
      × (is_member n 0 ≡ true)
      × (is_member n 1 ≡ true)
      × (is_member n 2 ≡ true)
unfolding is_class
is_class_parts n h =
    let (t, c) = and-true (length (class_of n) == 3 && is_member n 0 && is_member n 1) _ h in
    let (t, b) = and-true (length (class_of n) == 3 && is_member n 0) _ t in
    let (size, a) = and-true (length (class_of n) == 3) _ t in (size, a, b, c)

-- Every word of the class of a word that the lookup knows.
pub find_row-IsWord :
    (key : Text) (m : Member) (v : ℕ)
    → find_row key synonym_lookup ≡ some m
    → (length (class_of m.class_no) ≡ 3) × IsWord m.class_no v
find_row-IsWord key m v e =
    let n = m.class_no in
    let h : is_class n ≡ true = find_row-is_class key m synonym_lookup lookup_sound e in
    let (size, a, b, c) = is_class_parts n h in
    let l : length (class_of n) ≡ 3 = (==_iff _ 3).0 size in
    let chosen = three (λ k. is_member n k ≡ true) (v % 3) (omega arith) a b c in
    let w = is_member-IsWord n (v % 3) l (omega arith) chosen in
    let same = word_of_mod (class_of n) v l in
    (
      l,
      record {
        lowercase = rw same w.lowercase;
        long = rw same w.long;
        found =
            rw same (
              w.found ∙ ap (λ k. some (record { class_no = n; variant = k })) (rw l (omega arith)));
      },
    )
