-- ===== src/Tlog/Recovery.antt =====
-- The log in memory and its file: what `append` writes, `_load` reads.
use oversight.Prelude.{
  ℕ, suc, ◌+◌, ◌≡◌, ◌⊎◌, inl, Option, none, some, List, [], ◌∷◌, ◌++◌, refl, ap, sym, >>=-eq-some,
  ◌∙◌, Bytes, IsBytes, All, arith, length, ==_iff, beq_self, append_assoc, append-nil, map,
}
use oversight.Json.{Json, Fields, get, dict}
use oversight.Hex.Laws.{fromhex-hex}
use oversight.Merkle.Sound.{IsDigest}
use oversight.Tlog.{
  TransparencyLog, parse_leaf_record, parse_hashes, accept, leaf_record, load_lines, load,
  append_bytes, fresh_root, text_of, leaf_data_bytes, is_index,
}

-- What memory and file agree on: the file loads to the leaves, and a cached root is theirs.
pub record IsFaithful (sha256 : Bytes → Bytes) (log : TransparencyLog) : Type 0 where
  pub loaded : load_lines sha256 log.file 0 ≡ some log.leaves
  pub cached : (log.cached_root ≡ none) ⊎ (log.cached_root ≡ fresh_root sha256 log.leaves)

module _ (sha256 : Bytes → Bytes) (decode_replace : Bytes → Bytes) where
  -- The log after the appends.
  unfoldable pub appended : List Bytes → TransparencyLog → TransparencyLog
  appended [] log = log
  appended (bs ∷ items) log = appended items (append_bytes sha256 decode_replace bs log).0

module _ (sha256 : Bytes → Bytes) (decode_replace : Bytes → Bytes)
    (digest : (x : Bytes) → IsDigest (sha256 x)) (octets : (x : Bytes) → IsBytes (sha256 x)) where
  parse_leaf_record-leaf_record :
      (i : ℕ) (bs : Bytes)
      → IsBytes bs
      → let rec = leaf_record decode_replace i (sha256 (0 ∷ bs)) bs in
        parse_leaf_record sha256 (some (dict rec)) i ≡ some (rec, sha256 (0 ∷ bs))
  unfolding parse_leaf_record parse_hashes accept leaf_record leaf_data_bytes get text_of is_index
  parse_leaf_record-leaf_record i bs h =
      let d = digest (0 ∷ bs) in
      rw (fromhex-hex (sha256 (0 ∷ bs)) (octets (0 ∷ bs)), fromhex-hex bs h)
        (ground (arith, d, beq_self (sha256 (0 ∷ bs)), ==_iff i i))

  load_lines-append :
      (lines : List (Option Json)) (line : Option Json) (rec : Fields) (leaf : Bytes)
      (xs : List Bytes) (i n : ℕ)
      → n ≡ i + length xs
      → load_lines sha256 lines i ≡ some xs
      → parse_leaf_record sha256 line n ≡ some (rec, leaf)
      → load_lines sha256 (lines ++ line ∷ []) i ≡ some (xs ++ leaf ∷ [])
  unfolding load_lines
  load_lines-append [] line rec leaf [] i n e h p = let at : i ≡ n = omega arith in rw (at, p) refl
  load_lines-append [] line rec leaf (x ∷ xs) i n e h p = absurd (cc)
  load_lines-append (l ∷ lines) line rec leaf xs i n e h p =
      let ((rec', x), parsed, h') = >>=-eq-some (parse_leaf_record sha256 l i) _ h in
      let (ys, loaded, whole) = >>=-eq-some (load_lines sha256 lines (suc i)) _ h' in
      let shape : x ∷ ys ≡ xs = cc in
      let size : length xs ≡ suc (length ys) = rw (sym shape) refl in
      let rest = load_lines-append lines line rec leaf ys (suc i) n (omega arith) loaded p in
      rw (parsed, rest) (ap (λ zs. some (zs ++ leaf ∷ [])) shape)

  pub append_bytes-IsFaithful :
      (bs : Bytes) (log : TransparencyLog)
      → IsBytes bs
      → IsFaithful sha256 log
      → IsFaithful sha256 (append_bytes sha256 decode_replace bs log).0
  unfolding append_bytes
  append_bytes-IsFaithful bs log hb h = record {
    loaded =
        load_lines-append log.file _ _ _ log.leaves 0 (length log.leaves) (omega arith) h.loaded
          (parse_leaf_record-leaf_record (length log.leaves) bs hb);
    cached = inl refl;
  }

  pub appended-IsFaithful :
      (items : List Bytes) (log : TransparencyLog)
      → All IsBytes items
      → IsFaithful sha256 log
      → IsFaithful sha256 (appended sha256 decode_replace items log)
  unfolding appended
  appended-IsFaithful [] log h f = f
  appended-IsFaithful (bs ∷ items) log (hb, h) f =
      appended-IsFaithful items (append_bytes sha256 decode_replace bs log).0 h
        (append_bytes-IsFaithful bs log hb f)

  leaves-appended :
      (items : List Bytes) (log : TransparencyLog)
      → (appended sha256 decode_replace items log).leaves
        ≡ log.leaves ++ map (λ bs. sha256 (0 ∷ bs)) items
  unfolding appended append_bytes
  leaves-appended [] log = sym (append-nil log.leaves)
  leaves-appended (bs ∷ items) log =
      leaves-appended items (append_bytes sha256 decode_replace bs log).0
      ∙ append_assoc log.leaves (sha256 (0 ∷ bs) ∷ []) (map (λ b. sha256 (0 ∷ b)) items)

  -- A log that starts from an empty file, takes any byte strings one after the other, and is then
  -- started again from the file that they left, loads without an error: its leaves are the hashes
  -- of the items in the order of the appends, and its file is the file that was left. The hash is
  -- any function into 32 bytes.
  pub load-appended :
      (items : List Bytes)
      → All IsBytes items
      → (start : TransparencyLog) × (load sha256 [] ≡ some start)
        × (load sha256 (appended sha256 decode_replace items start).file
            ≡ some (record {
              leaves = map (λ bs. sha256 (0 ∷ bs)) items;
              cached_root = none;
              file = (appended sha256 decode_replace items start).file;
            }))
  unfolding load load_lines
  load-appended items h =
      let start : TransparencyLog = record { leaves = []; cached_root = none; file = [] } in
      let f = appended-IsFaithful items start h (record { loaded = refl; cached = inl refl }) in
      (start, refl, rw (f.loaded, leaves-appended items start) refl)
