-- ===== src/Tlog.antt =====
-- oversight_core/tlog.py: `TransparencyLog`, the leaves in memory, the cached root and the file of
-- records. A line of the file is kept as the value that `json.loads` reads from it, `none` for a
-- line that is no JSON; blank lines do not occur. `none` as a result stands for an exception.
-- `sha256` is a parameter, and `decode_replace` is `decode("utf-8", errors="replace")`.
pub mod Recovery
pub mod Head
pub mod Evidence
pub mod Examples
use oversight.Prelude.{
  ℕ, suc, ◌+◌, ◌-◌, ℤ, pos, negsuc, Bool, true, false, ◌&&◌, Option, none, some, ◌>>=◌, List, [],
  ◌∷◌, ◌++◌, Bytes, beq, codes, length, get_elem?, min, ltb, leb, ◌==◌, if◌then◌else◌,
}
use oversight.Json.{Json, Fields, get, null, boolean, int, float, str, list, dict, end, field}
use oversight.Jcs.{jcs_dumps, utf8}
use oversight.Hex.{hex, fromhex}
use oversight.Merkle.{rfc6962_mth, rfc6962_path}

pub record TransparencyLog : Type 0 where
  pub leaves : List Bytes
  pub cached_root : Option Bytes
  pub file : List (Option Json)

text_of : Json → Option Bytes
text_of (str s) = some s
text_of (null) = none
text_of (boolean b) = none
text_of (int n) = none
text_of (float s) = none
text_of (list vs) = none
text_of (dict fs) = none

-- `_leaf_data_bytes`: a null counts as missing. A text is taken to be encodable: the source raises
-- on a lone surrogate.
unfoldable pub leaf_data_bytes : Fields → Option Bytes
unfolding get text_of fromhex utf8
leaf_data_bytes rec = elim (get (codes "leaf_data_hex") rec) [
  | some null ↦ do text ← get (codes "leaf_data") rec >>= text_of; some (utf8 text)
  | none ↦ do text ← get (codes "leaf_data") rec >>= text_of; some (utf8 text)
  | some value ↦ do text ← text_of value; fromhex text
]

-- `type(found_index) is int` and `found_index == expected_index`
is_index : Option Json → ℕ → Bool
is_index (some (int (pos n))) expected_index = n == expected_index
is_index _ expected_index = false

unfoldable pub size : TransparencyLog → ℕ
size log = length log.leaves

pub record Proof : Type 0 where
  pub index : ℕ
  pub leaf_hash : Bytes
  pub proof : List Bytes
  pub root : Bytes
  pub tree_size : ℕ

module _ (sha256 : Bytes → Bytes) where
  -- The checks of the hash.
  accept : Fields → Bytes → Bytes → Option (Fields × Bytes)
  accept rec leaf_hash leaf_bytes =
      if length leaf_hash == 32 && beq leaf_hash (sha256 (0 ∷ leaf_bytes))
      then some (rec, leaf_hash)
      else none

  -- What follows the checks of the index.
  parse_hashes : Fields → Option (Fields × Bytes)
  unfolding accept get text_of leaf_data_bytes fromhex
  parse_hashes rec = do
    text ← get (codes "leaf_hash") rec >>= text_of
    leaf_hash ← fromhex text
    leaf_bytes ← leaf_data_bytes rec
    accept rec leaf_hash leaf_bytes

  unfoldable pub parse_leaf_record : Option Json → ℕ → Option (Fields × Bytes)
  unfolding is_index get parse_hashes
  parse_leaf_record (some (dict rec)) expected_index =
      let parsed = parse_hashes rec in
      if is_index (get (codes "index") rec) expected_index then parsed else none
  parse_leaf_record _ expected_index = none

  -- The loop of `_load`.
  pub load_lines : List (Option Json) → ℕ → Option (List Bytes)
  unfolding parse_leaf_record
  load_lines [] expected_index = some []
  load_lines (line ∷ lines) expected_index = do
    (rec, leaf_hash) ← parse_leaf_record line expected_index
    leaves ← load_lines lines (suc expected_index)
    some (leaf_hash ∷ leaves)

  -- `__init__`, which loads the file
  unfoldable pub load : List (Option Json) → Option TransparencyLog
  unfolding load_lines
  load lines = do
    found ← load_lines lines 0
    some (record { leaves = found; cached_root = none; file = lines })

  -- The root of the leaves, without the cache.
  pub fresh_root : List Bytes → Option Bytes
  unfolding rfc6962_mth
  fresh_root [] = some (sha256 [])
  fresh_root (leaf ∷ leaves) = rfc6962_mth sha256 (leaf ∷ leaves)

  unfoldable pub root : TransparencyLog → Option (TransparencyLog × Bytes)
  unfolding fresh_root
  root log = elim log.cached_root [
    | some cached ↦ some (log, cached)
    | none ↦ do
      computed ← fresh_root log.leaves
      some (record log { cached_root = some computed }, computed)
  ]

  -- An index below 0 or past the end gives no proof; the outer `none` is a failed assertion.
  unfoldable pub inclusion_proof : ℤ → TransparencyLog → Option (TransparencyLog × Option Proof)
  unfolding root rfc6962_path
  inclusion_proof (negsuc n) log = some (log, none)
  inclusion_proof (pos index) log = elim (get_elem? log.leaves index) [
    | none ↦ some (log, none)
    | some leaf ↦ do
      siblings ← rfc6962_path sha256 log.leaves index
      (rooted, computed) ← root log
      some (
        rooted,
        some (record {
          index = index;
          leaf_hash = leaf;
          proof = siblings;
          root = computed;
          tree_size = length log.leaves;
        }),
      )
  ]

  -- The loop of `range_records`: the records from `start` on, before `last`, and where it stopped.
  read_range : ℕ → ℕ → List (Option Json) → ℕ → Option (List Fields × ℕ)
  unfolding parse_leaf_record
  read_range start last [] expected_index = some ([], expected_index)
  read_range start last (line ∷ lines) expected_index =
      let step = do
        (rec, leaf_hash) ← parse_leaf_record line expected_index
        (recs, stop) ← read_range start last lines (suc expected_index)
        some (if leb start expected_index then rec ∷ recs else recs, stop)
      in if leb last expected_index then some ([], expected_index) else step

  unfoldable pub range_records : ℤ → ℤ → TransparencyLog → Option (List Fields)
  unfolding read_range
  range_records (negsuc _) limit log = none
  range_records (pos start) (negsuc _) log = some []
  range_records (pos start) (pos limit) log =
      if limit == 0 then some [] else if leb (length log.leaves) start then some [] else do
        let last = min (start + limit) (length log.leaves)
        (recs, stop) ← read_range start last log.file 0
        if ltb stop last then none else some recs

module _ (decode_replace : Bytes → Bytes) where
  -- The record that `append` writes.
  leaf_record : ℕ → Bytes → Bytes → Fields
  unfolding hex
  leaf_record index leaf_hash leaf_bytes = field (codes "index") (int (pos index)) (
      field (codes "leaf_hash") (str (hex leaf_hash)) (
        field (codes "leaf_data") (str (decode_replace leaf_bytes))
          (field (codes "leaf_data_hex") (str (hex leaf_bytes)) end)))

module _ (sha256 : Bytes → Bytes) (decode_replace : Bytes → Bytes) where
  -- `append` of bytes
  unfoldable pub append_bytes : Bytes → TransparencyLog → TransparencyLog × ℕ
  unfolding leaf_record
  append_bytes leaf_bytes log =
      let index = length log.leaves in
      let leaf_hash = sha256 (0 ∷ leaf_bytes) in
      let line = dict (leaf_record decode_replace index leaf_hash leaf_bytes) in
      (
        record {
          leaves = log.leaves ++ leaf_hash ∷ [];
          cached_root = none;
          file = log.file ++ some line ∷ [];
        },
        index,
      )

  -- `append` of a dictionary
  unfoldable pub append : Json → TransparencyLog → Option (TransparencyLog × ℕ)
  unfolding append_bytes jcs_dumps
  append leaf_data log = do leaf_bytes ← jcs_dumps leaf_data; some (append_bytes leaf_bytes log)
