-- ===== src/L3Policy/Regions/Kept.antt =====
-- What `apply_l3_safe` leaves as it is.
use oversight.Prelude.{
  ℕ, ◌+◌, ◌≡◌, ◌⊎◌, inl, inr, refl, ap, sym, Bool, true, false, not, ◌&&◌, Option, some, List, [],
  ◌∷◌, Bytes, codes, beq, length, if◌then◌else◌, All, Bool-cases,
}
use oversight.Semantic.Case.{Text}
use oversight.L3Policy.Regions.{
  Splitting, concat, is_boilerplate_line, is_fence, mark_parts, mark_unquoted, mark_line,
  mark_lines, apply_lines, mark_segment_with, apply_l3_safe,
}

module _ (s : Splitting) (mark_segment : Text → Option Text) where
  -- The layers answer for the segment.
  abbrev pub IsMarkable : Text → Type 0
  IsMarkable part = (new : Text) × (mark_segment part ≡ some new)

  -- Part by part: a quotation is as it was, another part is too or is what the layers make of it.
  abbrev pub KeptParts : Bool → List Text → List Text → Type 0
  KeptParts outside [] [] = Unit
  KeptParts outside [] (o ∷ os) = ⊥
  KeptParts outside (p ∷ ps) [] = ⊥
  KeptParts outside (p ∷ ps) (o ∷ os) =
      ((o ≡ p) ⊎ ((outside ≡ true) × (mark_segment p ≡ some o))) × KeptParts (not outside) ps os

  -- A line that may be changed, and what it is now.
  pub record IsChanged (code_fence : Bool) (line new : Text) : Type 0 where
    pub no_fence : is_fence s line ≡ false
    pub no_code : code_fence ≡ false
    pub free : s.is_protected line ≡ false
    pub parts : List Text
    pub joined : new ≡ concat parts
    pub kept : KeptParts true (s.split_quotes line) parts

  -- Line by line; a fence opens a block of code or closes it.
  abbrev pub KeptLines : Bool → List Text → List Text → Type 0
  KeptLines code_fence [] [] = Unit
  KeptLines code_fence [] (o ∷ os) = ⊥
  KeptLines code_fence (l ∷ ls) [] = ⊥
  KeptLines code_fence (l ∷ ls) (o ∷ os) =
      ((o ≡ l) ⊎ IsChanged code_fence l o)
      × KeptLines (if is_fence s l then not code_fence else code_fence) ls os

  -- One part: the segment is marked or stays.
  part_lem :
      (outside : Bool) (part : Text)
      → IsMarkable part
      → (new : Text) × ((if outside && not (beq (s.strip part) [])
            then mark_segment part
            else some part)
          ≡ some new)
        × ((new ≡ part) ⊎ ((outside ≡ true) × (mark_segment part ≡ some new)))
  part_lem false part m = (part, refl, inl refl)
  part_lem true part (new, m) = elim (Bool-cases (beq (s.strip part) [])) [
    | inl blank ↦ (part, rw blank refl, inl refl)
    | inr text ↦ (new, rw text m, inr (refl, m))
  ]

  mark_parts-KeptParts :
      (outside : Bool) (parts : List Text)
      → All IsMarkable parts
      → (new : List Text) × (mark_parts s mark_segment outside parts ≡ some new)
        × KeptParts outside parts new
  unfolding mark_parts
  mark_parts-KeptParts outside [] h = ([], refl, tt)
  mark_parts-KeptParts outside (p ∷ ps) (m, h) =
      let (new, e, k) = part_lem outside p m in
      let (news, es, ks) = mark_parts-KeptParts (not outside) ps h in
      (new ∷ news, rw (e, es) refl, (k, ks))

  mark_unquoted_lem :
      (line : Text)
      → All IsMarkable (s.split_quotes line)
      → (parts : List Text) × (mark_unquoted s mark_segment line ≡ some (concat parts))
        × KeptParts true (s.split_quotes line) parts
  unfolding mark_unquoted
  mark_unquoted_lem line h =
      let (parts, e, k) = mark_parts-KeptParts true (s.split_quotes line) h in (parts, rw e refl, k)

  mark_line_lem :
      (boilerplate : Bool) (total idx : ℕ) (code_fence : Bool) (line : Text)
      → All IsMarkable (s.split_quotes line)
      → is_fence s line ≡ false
      → (new : Text) × (mark_line s mark_segment boilerplate total idx code_fence line ≡ some new)
        × ((new ≡ line) ⊎ IsChanged code_fence line new)
  unfolding mark_line
  mark_line_lem boilerplate total idx true line h f = (line, refl, inl refl)
  mark_line_lem boilerplate total idx false line h f = elim (Bool-cases (s.is_protected line)) [
    | inl guarded ↦ (line, rw guarded refl, inl refl)
    | inr free ↦ elim (Bool-cases (boilerplate && not (is_boilerplate_line s line idx total))) [
      | inl body ↦ (line, rw (free, body) refl, inl refl)
      | inr asked ↦
          let (parts, e, k) = mark_unquoted_lem line h in
          (
            concat parts,
            rw (free, asked) e,
            inr (record {
              no_fence = f;
              no_code = refl;
              free = free;
              parts = parts;
              joined = refl;
              kept = k;
            }),
          )
    ]
  ]

  line_lem :
      (boilerplate : Bool) (total idx : ℕ) (code_fence : Bool) (line : Text)
      → All IsMarkable (s.split_quotes line)
      → (new : Text) × ((if is_fence s line
            then some line
            else mark_line s mark_segment boilerplate total idx code_fence line)
          ≡ some new)
        × ((new ≡ line) ⊎ IsChanged code_fence line new)
  line_lem boilerplate total idx code_fence line h = elim (Bool-cases (is_fence s line)) [
    | inl fence ↦ (line, rw fence refl, inl refl)
    | inr other ↦
        let (new, e, k) = mark_line_lem boilerplate total idx code_fence line h other in
        (new, rw other e, k)
  ]

  mark_lines-KeptLines :
      (boilerplate : Bool) (total idx : ℕ) (code_fence : Bool) (lines : List Text)
      → All (λ line. All IsMarkable (s.split_quotes line)) lines
      → (new : List Text) × (mark_lines s mark_segment boilerplate total idx code_fence lines
          ≡ some new)
        × KeptLines code_fence lines new
  unfolding mark_lines
  mark_lines-KeptLines boilerplate total idx code_fence [] h = ([], refl, tt)
  mark_lines-KeptLines boilerplate total idx code_fence (l ∷ ls) (m, h) =
      let (new, e, k) = line_lem boilerplate total idx code_fence l m in
      let after = if is_fence s l then not code_fence else code_fence in
      let (news, es, ks) = mark_lines-KeptLines boilerplate total (idx + 1) after ls h in
      (new ∷ news, rw (e, es) refl, (k, ks))

  same-KeptLines : (code_fence : Bool) (lines : List Text) → KeptLines code_fence lines lines
  same-KeptLines code_fence [] = tt
  same-KeptLines code_fence (l ∷ ls) =
      (inl refl, same-KeptLines (if is_fence s l then not code_fence else code_fence) ls)

  apply_lines-KeptLines :
      (text : Text) (mode : Bytes)
      → concat (s.splitlines text) ≡ text
      → All (λ line. All IsMarkable (s.split_quotes line)) (s.splitlines text)
      → (out : List Text) × (apply_lines s mark_segment text mode ≡ some (concat out))
        × KeptLines false (s.splitlines text) out
  unfolding apply_lines
  apply_lines-KeptLines text mode whole h = elim (Bool-cases (beq mode (codes "off"))) [
    | inl off ↦
        (s.splitlines text, rw off (ap some (sym whole)), same-KeptLines false (s.splitlines text))
    | inr on ↦
        let lines = s.splitlines text in
        let (out, e, k) =
          mark_lines-KeptLines (beq mode (codes "boilerplate")) (length lines) 0 false lines h in
        (out, rw (on, e) refl, k)
  ]

module _ (sha256 : Bytes → Bytes) (is_word : ℕ → Bool) (skip_spans : Text → List (ℕ × ℕ))
    (same_letter : ℕ → ℕ → Bool) (s : Splitting) (mark_id : Bytes) where
  abbrev pub layers : Text → Option Text
  layers = mark_segment_with sha256 is_word skip_spans same_letter mark_id

  -- Where the lines of a text make it up and the layers answer for every part of a line,
  -- `apply_l3_safe` returns, in any mode, and its result is the lines one by one, each as it was or
  -- a changed one: a line that opens or closes no block of code, that stands in none and that is
  -- not protected, and in which the quotations are as they were and every other part is too, or is
  -- what the layers of synonyms, spelling and contractions make of it.
  pub apply_l3_safe-KeptLines :
      (text : Text) (mode : Bytes)
      → concat (s.splitlines text) ≡ text
      → All (λ line. All (IsMarkable s layers) (s.split_quotes line)) (s.splitlines text)
      → (out : List Text) × (apply_l3_safe sha256 is_word skip_spans same_letter s text mark_id mode
          ≡ some (concat out))
        × KeptLines s layers false (s.splitlines text) out
  unfolding apply_l3_safe
  apply_l3_safe-KeptLines text mode whole h = apply_lines-KeptLines s layers text mode whole h
