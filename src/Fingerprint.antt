-- ===== src/Fingerprint.antt =====
-- oversight_core/fingerprint.py: the normal form of a text, winnowing and its similarity. A text is the
-- list of its code points; `str.lower` and the hash of a k-gram are parameters.
pub mod Cover
pub mod Guarantee
pub mod Examples
use oversight.Prelude.{
  ℕ, zero, suc, ◌+◌, ◌-◌, ◌≤◌, Bool, true, false, ◌&&◌, ◌||◌, not, Option, none, some, List, [],
  ◌∷◌, Bytes, leb, ltb, ◌==◌, length, take, drop, if◌then◌else◌,
}
use oversight.Result.{value_error, Result, ok, raised, ◌>>=◌, or_raise}

-- The four invisible characters.
is_zero_width : ℕ → Bool
is_zero_width c = (leb 8203 c && leb c 8205) || c == 65279

-- `\s` of the regular expressions of Python
is_space : ℕ → Bool
is_space c =
    (leb 9 c && leb c 13)
    || ((leb 28 c && leb c 32)
        || (c == 133
            || (c == 160
                || (c == 5760
                    || ((leb 8192 c && leb c 8202)
                        || (c == 8232
                            || (c == 8233 || (c == 8239 || (c == 8287 || c == 12288)))))))))

-- `[a-z0-9 ]`
is_kept : ℕ → Bool
is_kept c = (leb 97 c && leb c 122) || ((leb 48 c && leb c 57) || c == 32)

without_zero_width : Bytes → Bytes
unfolding is_zero_width
without_zero_width [] = []
without_zero_width (c ∷ s) =
    let rest = without_zero_width s in if is_zero_width c then rest else c ∷ rest

-- One space for each run of blanks; `blank` says that one has been written for the run.
collapse : Bool → Bytes → Bytes
unfolding is_space
collapse blank [] = []
collapse blank (c ∷ s) =
    let inside = collapse true s in
    let outside = collapse false s in
    if is_space c then (if blank then inside else 32 ∷ inside) else c ∷ outside

kept : Bytes → Bytes
unfolding is_kept
kept [] = []
kept (c ∷ s) = let rest = kept s in if is_kept c then c ∷ rest else rest

-- `strip()`; spaces are the only blanks that are left.
lstrip : Bytes → Bytes
lstrip [] = []
lstrip (c ∷ s) = let rest = lstrip s in if c == 32 then rest else c ∷ s

rstrip : Bytes → Bytes
rstrip [] = []
rstrip (c ∷ s) = let rest = rstrip s in if c == 32 && leb (length rest) 0 then [] else c ∷ rest

unfoldable pub normalize_text : (Bytes → Bytes) → Bytes → Bytes
unfolding without_zero_width collapse kept lstrip rstrip
normalize_text lower text =
    rstrip (lstrip (kept (collapse false (without_zero_width (lower text)))))

-- `value in values`, for a set kept as a list
unfoldable pub holds : ℕ → List ℕ → Bool
holds v [] = false
holds v (w ∷ ws) = v == w || holds v ws

unfoldable pub add : ℕ → List ℕ → List ℕ
unfolding holds
add v ws = if holds v ws then ws else v ∷ ws

unfoldable pub insert : ℕ → List ℕ → List ℕ
insert v [] = v ∷ []
insert v (w ∷ ws) = let rest = insert v ws in if leb v w then v ∷ w ∷ ws else w ∷ rest

unfoldable pub sorted : List ℕ → List ℕ
unfolding insert
sorted [] = []
sorted (v ∷ vs) = insert v (sorted vs)

unfoldable pub firsts : List (ℕ × ℕ) → List ℕ
firsts [] = []
firsts (p ∷ ps) = p.0 ∷ firsts ps

unfoldable pub minimum : List ℕ → Option ℕ
minimum [] = none
minimum (v ∷ vs) = elim (minimum vs) [ none ↦ some v | some m ↦ some (if leb v m then v else m) ]

-- The index of the last occurrence.
unfoldable pub rightmost : ℕ → List ℕ → Option ℕ
rightmost m [] = none
rightmost m (v ∷ vs) = elim (rightmost m vs) [
  | some j ↦ some (suc j)
  | none ↦ if v == m then some 0 else none
]

-- What the loop keeps: the selected hashes, and the index of the last minimum.
pub record Selection : Type 0 where
  pub selected : List ℕ
  pub prev_min_idx : Option ℕ

is_index : ℕ → Option ℕ → Bool
is_index i none = false
is_index i (some j) = i == j

-- The minimum at `abs_idx` is added where it is not the last one.
unfoldable pub chosen : ℕ → ℕ → Selection → Selection
unfolding is_index add
chosen min_h abs_idx s =
    if is_index abs_idx s.prev_min_idx
    then s
    else record { selected = add min_h s.selected; prev_min_idx = some abs_idx }

-- One window, at index `i`.
unfoldable pub select : ℕ → List ℕ → Selection → Result Selection
unfolding minimum rightmost chosen
select i window_hashes s = do
  min_h ← or_raise (minimum window_hashes) value_error
  j ← or_raise (rightmost min_h window_hashes) value_error
  ok (chosen min_h (i + j) s)

-- The loop over `n` windows, with the hashes from index `i` on.
unfoldable pub scan : ℕ → ℕ → ℕ → List ℕ → Selection → Result Selection
unfolding select
scan window zero i hashes s = ok s
scan window (suc n) i hashes s = do
  next ← select i (take window hashes) s
  scan window n (suc i) (drop 1 hashes) next

-- From the hashes to the fingerprint. A window of no hashes has no minimum.
unfoldable pub fingerprint : ℕ → List ℕ → Result (List ℕ)
unfolding scan sorted
fingerprint window hashes = if ltb (length hashes) window then ok hashes else (do
  s ←
      scan window (length hashes - window + 1) 0 hashes
        (record { selected = []; prev_min_idx = none })
  ok (sorted s.selected))

module _ (lower : Bytes → Bytes) (hash : Bytes → ℕ) where
  -- The hashes of `n` k-grams, from index `i` on.
  unfoldable pub kgrams : ℕ → ℕ → ℕ → Bytes → List (ℕ × ℕ)
  kgrams k zero i text = []
  kgrams k (suc n) i text = (hash (take k text), i) ∷ kgrams k n (suc i) (drop 1 text)

  unfoldable pub rolling_hash : Bytes → ℕ → List (ℕ × ℕ)
  unfolding kgrams
  rolling_hash text k = if ltb (length text) k then [] else kgrams k (length text - k + 1) 0 text

  unfoldable pub winnow : Bytes → ℕ → ℕ → Result (List ℕ)
  unfolding normalize_text rolling_hash firsts fingerprint
  winnow text k window =
      let normalized = normalize_text lower text in
      if ltb (length normalized) k
      then ok []
      else fingerprint window (firsts (rolling_hash normalized k))

-- `len(set(fp))`, and the number of those that the other has
unfoldable pub distinct : List ℕ → List ℕ
unfolding add
distinct [] = []
distinct (v ∷ vs) = add v (distinct vs)

unfoldable pub common : List ℕ → List ℕ → ℕ
unfolding holds
common [] ws = 0
common (v ∷ vs) ws = let rest = common vs ws in if holds v ws then suc rest else rest

-- The quotient as its two counts, of the intersection and of the union; 0 of 1 for an empty one.
unfoldable pub winnow_similarity : List ℕ → List ℕ → ℕ × ℕ
unfolding distinct common
winnow_similarity [] fp2 = (0, 1)
winnow_similarity (v ∷ vs) [] = (0, 1)
winnow_similarity (v ∷ vs) (w ∷ ws) =
    let s1 = distinct (v ∷ vs) in
    let s2 = distinct (w ∷ ws) in
    let intersection = common s1 s2 in (intersection, length s1 + length s2 - intersection)
