-- ===== src/Tlog/Evidence.antt =====
-- What a root and a size say of the file: its records' data.
use oversight.Prelude.{
  ℕ, suc, ◌≡◌, ◌⊎◌, inl, inr, Option, none, some, ◌>>=◌, >>=-eq-some, List, [], ◌∷◌, refl, sym, ap,
  ◌∙◌, Bytes, arith, codes, length, map, All, beq, beq_iff, Bool-cases,
}
use oversight.Hex.{fromhex}
use oversight.Json.{Json, Fields, get, null, boolean, int, float, str, list, dict}
use oversight.Merkle.Sound.{IsDigest, Collision, unless-Collision}
use oversight.Merkle.Binding.{rfc6962_mth_inj}
use oversight.Tlog.{
  TransparencyLog, parse_leaf_record, parse_hashes, accept, text_of, load_lines, load,
  leaf_data_bytes, fresh_root, root, size,
}

-- The data of the file's records, in order.
pub recorded : List (Option Json) → List (Option Bytes)
recorded [] = []
recorded (some (dict rec) ∷ lines) = leaf_data_bytes rec ∷ recorded lines
recorded (_ ∷ lines) = none ∷ recorded lines

module _ (sha256 : Bytes → Bytes) (digest : (x : Bytes) → IsDigest (sha256 x)) where
  leaf_hashes : List Bytes → List Bytes
  leaf_hashes items = map (λ bs. sha256 (0 ∷ bs)) items

  accept-eq-some :
      (fs rec : Fields) (leaf leaf' bs : Bytes)
      → accept sha256 fs leaf bs ≡ some (rec, leaf')
      → (fs ≡ rec) × (leaf' ≡ sha256 (0 ∷ bs))
  unfolding accept
  accept-eq-some fs rec leaf leaf' bs h =
      let e = beq_iff leaf (sha256 (0 ∷ bs)) in (ground (arith, h), ground (arith, h, e))

  parse_hashes-eq-some :
      (fs rec : Fields) (leaf : Bytes)
      → parse_hashes sha256 fs ≡ some (rec, leaf)
      → (bs : Bytes) × (some (dict fs) ≡ some (dict rec))
        × (leaf_data_bytes rec ≡ some bs)
        × (leaf ≡ sha256 (0 ∷ bs))
  unfolding parse_hashes
  parse_hashes-eq-some fs rec leaf h =
      let (text, _, h1) = >>=-eq-some (get (codes "leaf_hash") fs >>= text_of) _ h in
      let (leaf', _, h2) = >>=-eq-some (fromhex text) _ h1 in
      let (bs, e, h3) = >>=-eq-some (leaf_data_bytes fs) _ h2 in
      let (same, hashed) = accept-eq-some fs rec leaf' leaf bs h3 in
      (bs, ap (λ (r : Fields). some (dict r)) same, rw (sym same) e, hashed)

  parse_leaf_record-eq-some :
      (line : Option Json) (i : ℕ) (rec : Fields) (leaf : Bytes)
      → parse_leaf_record sha256 line i ≡ some (rec, leaf)
      → (bs : Bytes) × (line ≡ some (dict rec))
        × (leaf_data_bytes rec ≡ some bs)
        × (leaf ≡ sha256 (0 ∷ bs))
  unfolding parse_leaf_record
  parse_leaf_record-eq-some none i rec leaf h = absurd (cc)
  parse_leaf_record-eq-some (some null) i rec leaf h = absurd (cc)
  parse_leaf_record-eq-some (some (boolean b)) i rec leaf h = absurd (cc)
  parse_leaf_record-eq-some (some (int n)) i rec leaf h = absurd (cc)
  parse_leaf_record-eq-some (some (float s)) i rec leaf h = absurd (cc)
  parse_leaf_record-eq-some (some (str s)) i rec leaf h = absurd (cc)
  parse_leaf_record-eq-some (some (list vs)) i rec leaf h = absurd (cc)
  parse_leaf_record-eq-some (some (dict fs)) i rec leaf h =
      parse_hashes-eq-some fs rec leaf (ground (arith, h))

  load_lines-recorded :
      (lines : List (Option Json)) (i : ℕ) (xs : List Bytes)
      → load_lines sha256 lines i ≡ some xs
      → (items : List Bytes) × (recorded lines ≡ map some items) × (xs ≡ leaf_hashes items)
  unfolding load_lines recorded leaf_hashes
  load_lines-recorded [] i xs h = ([], refl, cc)
  load_lines-recorded (line ∷ lines) i xs h =
      let ((rec, leaf), parsed, h') = >>=-eq-some (parse_leaf_record sha256 line i) _ h in
      let (ys, loaded, whole) = >>=-eq-some (load_lines sha256 lines (suc i)) _ h' in
      let (bs, shape, found, hashed) = parse_leaf_record-eq-some line i rec leaf parsed in
      let (items, eq, hashes) = load_lines-recorded lines (suc i) ys loaded in
      (
        bs ∷ items,
        rw (shape, found, eq) refl,
        let e : leaf ∷ ys ≡ xs = cc in sym e ∙ rw (hashed, hashes) refl,
      )

  leaf_hashes-IsDigest : (items : List Bytes) → All IsDigest (leaf_hashes items)
  unfolding leaf_hashes
  leaf_hashes-IsDigest [] = tt
  leaf_hashes-IsDigest (bs ∷ items) = (digest (0 ∷ bs), leaf_hashes-IsDigest items)

  leaf_hashes_inj :
      (xs ys : List Bytes) → leaf_hashes xs ≡ leaf_hashes ys → (xs ≡ ys) ⊎ Collision sha256
  unfolding leaf_hashes
  leaf_hashes_inj [] [] h = inl refl
  leaf_hashes_inj [] (y ∷ ys) h = absurd (cc)
  leaf_hashes_inj (x ∷ xs) [] h = absurd (cc)
  leaf_hashes_inj (x ∷ xs) (y ∷ ys) h =
      let head : sha256 (0 ∷ x) ≡ sha256 (0 ∷ y) = cc in
      let tail : leaf_hashes xs ≡ leaf_hashes ys = cc in
      elim (Bool-cases (beq x y)) [
        | inl e ↦
            let same : x ≡ y = (beq_iff x y).0 e in
            unless-Collision (leaf_hashes_inj xs ys tail) (λ rest. inl (cc))
        | inr e ↦ inr (record {
          first = 0 ∷ x;
          second = 0 ∷ y;
          differ = λ p. cc (e, (beq_iff x y).1 (cc));
          same = head;
        })
      ]

  fresh_root_inj :
      (xs ys : List Bytes) (r : Bytes)
      → length xs ≡ length ys
      → All IsDigest xs
      → All IsDigest ys
      → fresh_root sha256 xs ≡ some r
      → fresh_root sha256 ys ≡ some r
      → (xs ≡ ys) ⊎ Collision sha256
  unfolding fresh_root
  fresh_root_inj [] [] r size a b p q = inl refl
  fresh_root_inj [] (y ∷ ys) r size a b p q = absurd (omega (arith, size))
  fresh_root_inj (x ∷ xs) [] r size a b p q = absurd (omega (arith, size))
  fresh_root_inj (x ∷ xs) (y ∷ ys) r size a b p q =
      rfc6962_mth_inj sha256 digest (x ∷ xs) (y ∷ ys) r size a b p q

  fresh_root-root :
      (log after : TransparencyLog) (r : Bytes)
      → log.cached_root ≡ none
      → root sha256 log ≡ some (after, r)
      → fresh_root sha256 log.leaves ≡ some r
  unfolding root
  fresh_root-root log after r e h = ground (arith, e, h)

  -- What a file that loads holds, and its root.
  root-load :
      (lines : List (Option Json)) (log after : TransparencyLog) (r : Bytes)
      → load sha256 lines ≡ some log
      → root sha256 log ≡ some (after, r)
      → (items : List Bytes) × (recorded lines ≡ map some items)
        × (log.leaves ≡ leaf_hashes items)
        × (fresh_root sha256 (leaf_hashes items) ≡ some r)
  unfolding load
  root-load lines log after r h p =
      let (xs, loaded, shape) = >>=-eq-some (load_lines sha256 lines 0) _ h in
      let (items, eq, hashes) = load_lines-recorded lines 0 xs loaded in
      let whole : record { leaves = xs; cached_root = none; file = lines } ≡ log = cc in
      let leaves : log.leaves ≡ leaf_hashes items = cc in
      let empty : log.cached_root ≡ none = cc in
      (items, eq, leaves, rw (sym leaves) (fresh_root-root log after r empty p))

  -- Two files that load without an error to logs of one size and one root hold the same data in the
  -- same order, or two inputs of the hash collide. The hash is any function into 32 bytes.
  pub recorded_inj :
      (lines lines' : List (Option Json)) (log log' after after' : TransparencyLog) (r : Bytes)
      → load sha256 lines ≡ some log
      → load sha256 lines' ≡ some log'
      → size log ≡ size log'
      → root sha256 log ≡ some (after, r)
      → root sha256 log' ≡ some (after', r)
      → (recorded lines ≡ recorded lines') ⊎ Collision sha256
  unfolding size
  recorded_inj lines lines' log log' after after' r h h' sizes p p' =
      let (items, eq, leaves, fresh) = root-load lines log after r h p in
      let (items', eq', leaves', fresh') = root-load lines' log' after' r h' p' in
      let sizes' : length (leaf_hashes items) ≡ length (leaf_hashes items') =
        rw (sym leaves, sym leaves') sizes in
      unless-Collision
        (fresh_root_inj (leaf_hashes items) (leaf_hashes items') r sizes'
          (leaf_hashes-IsDigest items) (leaf_hashes-IsDigest items') fresh fresh')
        (λ same.
          unless-Collision (leaf_hashes_inj items items' same)
            (λ e. inl (eq ∙ ap (map some) e ∙ sym eq')))
