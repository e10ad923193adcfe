-- ===== src/Tlog/Head.antt =====
-- The cached root, and the proofs that the log hands out.
use oversight.Prelude.{
  ℕ, ◌≡◌, ◌<◌, inl, inr, true, some, List, [], ◌∷◌, refl, sym, ◌∙◌, pos, Bytes, arith, length,
  get_elem?, get_elem?-some,
}
use oversight.Merkle.{verify_inclusion_proof, rfc6962_mth, rfc6962_path}
use oversight.Merkle.Complete.{verify-path}
use oversight.Tlog.{TransparencyLog, Proof, fresh_root, root, inclusion_proof}
use oversight.Tlog.Recovery.{IsFaithful}

module _ (sha256 : Bytes → Bytes) where
  fresh_root_total : (leaves : List Bytes) → (r : Bytes) × (fresh_root sha256 leaves ≡ some r)
  unfolding fresh_root
  fresh_root_total [] = (sha256 [], refl)
  fresh_root_total (leaf ∷ leaves) =
      let (siblings, r, found, hashed, accepted) = verify-path sha256 (leaf ∷ leaves) 0 leaf refl in
      (r, hashed)

  -- In a log that agrees with its file and of which a cached root is the root of its leaves, `root`
  -- returns the root of the present leaves without an error, and leaves a log with the same leaves
  -- of which this holds.
  pub root-IsFaithful :
      (log : TransparencyLog)
      → IsFaithful sha256 log
      → (after : TransparencyLog) × (r : Bytes) × (root sha256 log ≡ some (after, r))
        × (fresh_root sha256 log.leaves ≡ some r)
        × (after.leaves ≡ log.leaves)
        × IsFaithful sha256 after
  unfolding root
  root-IsFaithful log f =
      let (r, fresh) = fresh_root_total log.leaves in
      elim f.cached [
        | inl empty ↦ (
          record log { cached_root = some r },
          r,
          rw (empty, fresh) refl,
          fresh,
          refl,
          record { loaded = f.loaded; cached = inr (sym fresh) },
        )
        | inr same ↦ (log, r, rw (same, fresh) refl, fresh, refl, f)
      ]

  fresh_root-get_elem? :
      (leaves : List Bytes) (i : ℕ) (leaf : Bytes)
      → get_elem? leaves i ≡ some leaf
      → fresh_root sha256 leaves ≡ rfc6962_mth sha256 leaves
  unfolding fresh_root
  fresh_root-get_elem? [] i leaf h = absurd (cc)
  fresh_root-get_elem? (x ∷ leaves) i leaf h = refl

  inclusion_proof_found :
      (log after : TransparencyLog) (i : ℕ) (leaf r : Bytes) (siblings : List Bytes)
      → get_elem? log.leaves i ≡ some leaf
      → rfc6962_path sha256 log.leaves i ≡ some siblings
      → root sha256 log ≡ some (after, r)
      → inclusion_proof sha256 (pos i) log
        ≡ some (
          after,
          some (record {
            index = i;
            leaf_hash = leaf;
            proof = siblings;
            root = r;
            tree_size = length log.leaves;
          }),
        )
  unfolding inclusion_proof
  inclusion_proof_found log after i leaf r siblings at found rooted =
      ground (arith, at, found, rooted)

  -- For every index of a log that agrees with its file and of which a cached root is the root of
  -- its leaves, `inclusion_proof` returns a proof that names the leaf at the index, its root is the
  -- one that `root` returns, and the verifier accepts it.
  pub verify-inclusion_proof :
      (log : TransparencyLog) (i : ℕ)
      → IsFaithful sha256 log
      → i < length log.leaves
      → (after : TransparencyLog) × (p : Proof) × (inclusion_proof sha256 (pos i) log
          ≡ some (after, some p))
        × (get_elem? log.leaves i ≡ some p.leaf_hash)
        × (root sha256 log ≡ some (after, p.root))
        × (verify_inclusion_proof sha256 p.leaf_hash (pos p.index) p.proof (pos p.tree_size) p.root
            ≡ true)
  verify-inclusion_proof log i f h =
      let (leaf, at) = get_elem?-some log.leaves i h in
      let (siblings, r, found, hashed, accepted) = verify-path sha256 log.leaves i leaf at in
      let (after, r', rooted, fresh, leaves, f') = root-IsFaithful log f in
      let both : some r' ≡ some r =
        sym fresh ∙ fresh_root-get_elem? log.leaves i leaf at ∙ hashed in
      let same : r' ≡ r = cc in
      (
        after,
        record {
          index = i;
          leaf_hash = leaf;
          proof = siblings;
          root = r';
          tree_size = length log.leaves;
        },
        inclusion_proof_found log after i leaf r' siblings at found rooted,
        at,
        rooted,
        rw same accepted,
      )
