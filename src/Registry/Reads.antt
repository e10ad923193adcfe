-- ===== src/Registry/Reads.antt =====
-- registry/server.py: what the service reads from its log, `_tlog_proofs_for_events`, `tlog_proof` and
-- `tlog_range`. A proof may fill the log's cache of the root. A failed assertion of the log is a
-- reply `crashed`.
use oversight.Prelude.{
  ℕ, suc, ℤ, pos, negsuc, Option, none, some, List, [], ◌∷◌, Bytes, codes, ◌==◌, min, if◌then◌else◌,
}
use oversight.Json.{Fields}
use oversight.Tlog.{TransparencyLog, Proof, inclusion_proof, range_records}
use oversight.Registry.{EventRow, Server, Setup, Reply, ok, refused, crashed}

pub record EventProof : Type 0 where
  pub event_row : ℕ
  pub tlog_index : ℕ
  pub proof : Proof

with_proof : ℕ → ℕ → Option Proof → List EventProof → List EventProof
with_proof i idx none proofs = proofs
with_proof i idx (some proof) proofs =
    record { event_row = i; tlog_index = idx; proof = proof } ∷ proofs

-- The loop, from row `i` on. Every row has an index that is not negative.
unfoldable pub proofs_from :
    (Bytes → Bytes)
    → ℕ
    → List EventRow
    → TransparencyLog
    → Option (TransparencyLog × List EventProof)
unfolding inclusion_proof with_proof
proofs_from sha256 i [] log = some (log, [])
proofs_from sha256 i (event ∷ events) log =
    elim (inclusion_proof sha256 (pos event.tlog_index) log) [
      | none ↦ none
      | some (read, found) ↦ elim (proofs_from sha256 (suc i) events read) [
        | none ↦ none
        | some (after, proofs) ↦ some (after, with_proof i event.tlog_index found proofs)
      ]
    ]

unfoldable pub tlog_proofs_for_events :
    (Bytes → Bytes) → List EventRow → TransparencyLog → Option (TransparencyLog × List EventProof)
unfolding proofs_from
tlog_proofs_for_events sha256 events log = proofs_from sha256 0 events log

-- `/tlog/proof/{index}`
unfoldable pub tlog_proof : Setup → ℤ → Server → Server × Reply Proof
unfolding inclusion_proof
tlog_proof setup index server = elim (inclusion_proof setup.sha256 index server.tlog) [
  | none ↦ (server, crashed)
  | some (read, none) ↦ (record server { tlog = read }, refused 404 (codes "index out of range"))
  | some (read, some proof) ↦ (record server { tlog = read }, ok proof)
]

-- `min(max(1, limit), 1000)`
clamp : ℤ → ℕ
clamp (pos n) = if n == 0 then 1 else min n 1000
clamp (negsuc n) = 1

-- `/tlog/range`
unfoldable pub tlog_range : Setup → ℤ → ℤ → Server → Reply (List Fields)
unfolding clamp range_records
tlog_range setup (negsuc n) limit server = refused 400 (codes "start must be non-negative")
tlog_range setup (pos start) limit server =
    elim (range_records setup.sha256 (pos start) (pos (clamp limit)) server.tlog) [
      | none ↦ refused 500 (codes "tlog range validation failed")
      | some entries ↦ ok entries
    ]
