-- ===== src/Tlog/Examples.antt =====
-- A log of two items over a toy hash of 32 bytes: its runs, and instances of the theorems.
use oversight.Prelude.{
  ℕ, ◌+◌, ◌*◌, ◌%◌, ◌<◌, ◌≡◌, ◌⊎◌, inl, refl, sym, ◌∙◌, true, Option, none, some, List, [], ◌∷◌,
  ◌++◌, pos, Bytes, IsBytes, arith, replicate, All, length, codes, get_elem?,
}
use oversight.Json.{Json, Fields, int, str, dict, end, field}
use oversight.Hex.{hex}
use oversight.Merkle.{verify_inclusion_proof}
use oversight.Merkle.Sound.{IsDigest, Collision}
use oversight.Tlog.{
  TransparencyLog, Proof, append_bytes, load_lines, load, root, inclusion_proof, range_records,
  size,
}
use oversight.Tlog.Recovery.{IsFaithful, appended, load-appended, appended-IsFaithful}
use oversight.Tlog.Head.{verify-inclusion_proof}
use oversight.Tlog.Evidence.{recorded, recorded_inj}

total : Bytes → ℕ
total [] = 7
total (b ∷ bs) = (b + 31 * total bs) % 251

-- Not a secure hash; it has the width of one.
unfoldable pub toy : Bytes → Bytes
unfolding total
toy x = total x ∷ replicate 31 0

pub toy-IsDigest : (x : Bytes) → IsDigest (toy x)
unfolding toy
toy-IsDigest x = refl

total-lt : (x : Bytes) → total x < 256
unfolding total
total-lt [] = omega arith
total-lt (b ∷ bs) = omega arith

pub toy-IsBytes : (x : Bytes) → IsBytes (toy x)
unfolding toy
toy-IsBytes x = ground (arith, total-lt x)

-- The decoding with replacement, for bytes below 128.
abbrev decode_replace : Bytes → Bytes
decode_replace bs = bs

abbrev pub nothing_yet : TransparencyLog
nothing_yet = record { leaves = []; cached_root = none; file = [] }

abbrev items : List Bytes
items = codes "ab" ∷ codes "c" ∷ []

items-IsBytes : All IsBytes items
items-IsBytes = (ground arith, (ground arith, tt))

pub nothing_yet-IsFaithful : IsFaithful toy nothing_yet
unfolding load_lines
nothing_yet-IsFaithful = record { loaded = refl; cached = inl refl }

abbrev two : TransparencyLog
two = appended toy decode_replace items nothing_yet

two-IsFaithful : IsFaithful toy two
two-IsFaithful =
    appended-IsFaithful toy decode_replace toy-IsDigest toy-IsBytes items nothing_yet items-IsBytes
      nothing_yet-IsFaithful

abbrev leaf_hashes : List Bytes
leaf_hashes = toy (0 ∷ codes "ab") ∷ toy (0 ∷ codes "c") ∷ []

two_leaves : two.leaves ≡ leaf_hashes
unfolding appended append_bytes
two_leaves = refl

abbrev count : Option (List Fields) → ℕ
count none = 0
count (some recs) = length recs

range_runs : count (range_records toy (pos 1) (pos 5) two) ≡ 1
unfolding range_records appended append_bytes toy
range_runs = refl

load-appended_example :
    (start : TransparencyLog) × (load toy [] ≡ some start)
    × (load toy (appended toy decode_replace items start).file
        ≡ some (record {
          leaves = leaf_hashes;
          cached_root = none;
          file = (appended toy decode_replace items start).file;
        }))
load-appended_example =
    load-appended toy decode_replace toy-IsDigest toy-IsBytes items items-IsBytes

verify-inclusion_proof_example :
    (after : TransparencyLog) × (p : Proof) × (inclusion_proof toy (pos 1) two
      ≡ some (after, some p))
    × (get_elem? two.leaves 1 ≡ some p.leaf_hash)
    × (root toy two ≡ some (after, p.root))
    × (verify_inclusion_proof toy p.leaf_hash (pos p.index) p.proof (pos p.tree_size) p.root ≡ true)
verify-inclusion_proof_example =
    verify-inclusion_proof toy two 1 two-IsFaithful (rw two_leaves (omega arith))

-- The same log with its first record in the older form, without `leaf_data_hex`.
abbrev older : List (Option Json)
older =
    some (
      dict (
        field (codes "index") (int (pos 0)) (
          field (codes "leaf_hash") (str (hex (toy (0 ∷ codes "ab"))))
            (field (codes "leaf_data") (str (codes "ab")) end))))
    ∷ some (
        dict (
          field (codes "index") (int (pos 1)) (
            field (codes "leaf_hash") (str (hex (toy (0 ∷ codes "c"))))
              (field (codes "leaf_data_hex") (str (hex (codes "c"))) end))))
    ∷ []

abbrev loaded : List (Option Json) → TransparencyLog
loaded lines = record { leaves = leaf_hashes; cached_root = none; file = lines }

abbrev root_of_two : Bytes
root_of_two = toy (1 ∷ (toy (0 ∷ codes "ab") ++ toy (0 ∷ codes "c")))

abbrev rooted : List (Option Json) → TransparencyLog
rooted lines = record (loaded lines) { cached_root = some root_of_two }

two_loads : load toy two.file ≡ some (loaded two.file)
unfolding load appended append_bytes toy
two_loads = refl

older_loads : load toy older ≡ some (loaded older)
unfolding load toy hex
older_loads = refl

root_loaded :
    (lines : List (Option Json)) → root toy (loaded lines) ≡ some (rooted lines, root_of_two)
unfolding root toy
root_loaded lines = refl

size_loaded : (lines : List (Option Json)) → size (loaded lines) ≡ 2
unfolding size
size_loaded lines = refl

recorded_inj_example : (recorded two.file ≡ recorded older) ⊎ Collision toy
recorded_inj_example =
    recorded_inj toy toy-IsDigest two.file older (loaded two.file) (loaded older) (rooted two.file)
      (rooted older) root_of_two two_loads older_loads
      (size_loaded two.file ∙ sym (size_loaded older)) (root_loaded two.file) (root_loaded older)
