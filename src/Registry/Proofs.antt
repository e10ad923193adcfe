-- ===== src/Registry/Proofs.antt =====
-- The proofs that the service hands out for rows of events, in a log that backs them.
use oversight.Prelude.{
  ℕ, zero, suc, ◌<◌, ◌≡◌, refl, sym, ap, ◌∙◌, true, some, List, [], ◌∷◌, Bytes, pos, arith, length,
  get_elem?, All,
}
use oversight.Merkle.{verify_inclusion_proof}
use oversight.Result.{some_inj}
use oversight.Tlog.{TransparencyLog}
use oversight.Tlog.Recovery.{IsFaithful}
use oversight.Tlog.Head.{root-IsFaithful, verify-inclusion_proof}
use oversight.Registry.{EventRow}
use oversight.Registry.Anchors.{IsAnchored}
use oversight.Registry.Reads.{EventProof, proofs_from, tlog_proofs_for_events}

get_elem?-lt : (xs : List Bytes) (i : ℕ) (x : Bytes) → get_elem? xs i ≡ some x → i < length xs
get_elem?-lt [] i x h = absurd (cc)
get_elem?-lt (y ∷ xs) zero x h = omega arith
get_elem?-lt (y ∷ xs) (suc i) x h = omega (arith, get_elem?-lt xs i x h)

-- The proof of a row: the verifier accepts it, for the leaf at the row's index.
pub record IsProved (sha256 : Bytes → Bytes) (leaves : List Bytes) (i : ℕ) (e : EventRow)
    (q : EventProof) : Type 0 where
  pub row : q.event_row ≡ i
  pub named : q.tlog_index ≡ e.tlog_index
  pub leaf : get_elem? leaves e.tlog_index ≡ some q.proof.leaf_hash
  pub accepted :
      verify_inclusion_proof sha256 q.proof.leaf_hash
        (pos q.proof.index)
        q.proof.proof
        (pos q.proof.tree_size)
        q.proof.root
      ≡ true

-- One proof for each row, in their order.
pub data AllProved (sha256 : Bytes → Bytes) (leaves : List Bytes)
    : ℕ → List EventRow → List EventProof → Type 0 where
  proved_none : (i : ℕ) → AllProved sha256 leaves i [] []
  proved_one :
      (i : ℕ) (e : EventRow) (q : EventProof) (es : List EventRow) (qs : List EventProof)
      → IsProved sha256 leaves i e q
      → AllProved sha256 leaves (suc i) es qs
      → AllProved sha256 leaves i (e ∷ es) (q ∷ qs)

module _ (sha256 : Bytes → Bytes) where
  proofs_from-AllProved :
      (i : ℕ) (events : List EventRow) (log : TransparencyLog)
      → IsFaithful sha256 log
      → All (IsAnchored sha256 log.leaves) events
      → (after : TransparencyLog) × (proofs : List EventProof) × (proofs_from sha256 i events log
          ≡ some (after, proofs))
        × AllProved sha256 log.leaves i events proofs
  unfolding proofs_from
  proofs_from-AllProved i [] log f h = (log, [], refl, proved_none i)
  proofs_from-AllProved i (e ∷ es) log f (a, h) =
      let inside = get_elem?-lt log.leaves e.tlog_index (sha256 (0 ∷ a.text)) a.leaf in
      let (read, proof, found, leaf, rooted, accepted) =
        verify-inclusion_proof sha256 log e.tlog_index f inside in
      let (read', r, rooted', _, leaves, f') = root-IsFaithful sha256 log f in
      let same : read' ≡ read =
        ap (λ (o : TransparencyLog × Bytes). o.0) (some_inj (sym rooted' ∙ rooted)) in
      let kept : read.leaves ≡ log.leaves =
        ap (λ (l : TransparencyLog). l.leaves) (sym same) ∙ leaves in
      let h' : All (IsAnchored sha256 read.leaves) es = rw kept h in
      let (after, proofs, rest, proved) =
        proofs_from-AllProved (suc i) es read (rw same at f') h' in
      let proved' : AllProved sha256 log.leaves (suc i) es proofs = rw kept at proved in
      let q : EventProof = record { event_row = i; tlog_index = e.tlog_index; proof = proof } in
      (
        after,
        q ∷ proofs,
        rw (found, proofs_from) (rw (rest, proofs_from) refl),
        proved_one i e q es proofs
            (record { row = refl; named = refl; leaf = leaf; accepted = accepted }) proved',
      )

  -- In a log that agrees with its file, of which a cached root is the root of its leaves, and that
  -- backs every one of the rows, each row gets a proof, in the order of the rows; the verifier accepts
  -- each, for the leaf at the row's index.
  pub tlog_proofs_for_events-AllProved :
      (events : List EventRow) (log : TransparencyLog)
      → IsFaithful sha256 log
      → All (IsAnchored sha256 log.leaves) events
      → (after : TransparencyLog) × (proofs : List EventProof) × (tlog_proofs_for_events sha256
            events log
          ≡ some (after, proofs))
        × AllProved sha256 log.leaves 0 events proofs
  unfolding tlog_proofs_for_events
  tlog_proofs_for_events-AllProved events log f h = proofs_from-AllProved 0 events log f h
