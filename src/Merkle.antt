-- ===== src/Merkle.antt =====
-- oversight_core/tlog.py: the Merkle tree of RFC 6962 over leaf hashes, audit paths, and their
-- verifier. `sha256` is a parameter. `none` stands for a failed assertion, or fuel that ran out.
pub mod Split
pub mod Tree
pub mod Spec
pub mod Complete
pub mod Sound
pub mod Binding
pub mod Examples
use oversight.Prelude.{
  ℕ, zero, suc, ◌-◌, ◌*◌, ℤ, pos, negsuc, Bool, true, false, Option, none, some, List, [], ◌∷◌,
  ◌++◌, Bytes, beq, length, take, drop, ltb, leb, ◌==◌, if◌then◌else◌, ◌>>=◌,
}

-- `while k * 2 < n: k *= 2`
grow : ℕ → ℕ → ℕ → ℕ
grow zero n k = k
grow (suc fuel) n k = let rest = grow fuel n (k * 2) in if ltb (k * 2) n then rest else k

-- The loop doubles `k` at most `n` times. The assertion refuses `n < 2`.
pub largest_power_of_2_less_than : ℕ → Option ℕ
unfolding grow
largest_power_of_2_less_than n = if ltb n 2 then none else some (grow n n 1)

-- `xs[:-1]` and `xs[-1]`, for a list that is not empty.
pub split_last {ℓ} : {A : Type ℓ} → List A → Option (List A × A)
split_last [] = none
split_last (x ∷ xs) = elim (split_last xs) [
  | none ↦ some ([], x)
  | some (init, last) ↦ some (x ∷ init, last)
]

module _ (sha256 : Bytes → Bytes) where
  pub node : Bytes → Bytes → Bytes
  node left right = sha256 (1 ∷ (left ++ right))

  -- The recursion cuts the list, so its length is fuel enough.
  pub mth : ℕ → List Bytes → Option Bytes
  mth zero leaf_hashes = none
  mth (suc fuel) [] = none
  mth (suc fuel) (leaf ∷ []) = some leaf
  mth (suc fuel) (leaf ∷ next ∷ more) = do
    let leaf_hashes = leaf ∷ next ∷ more
    k ← largest_power_of_2_less_than (length leaf_hashes)
    left ← mth fuel (take k leaf_hashes)
    right ← mth fuel (drop k leaf_hashes)
    some (node left right)

  unfoldable pub rfc6962_mth : List Bytes → Option Bytes
  unfolding mth largest_power_of_2_less_than node
  rfc6962_mth leaf_hashes = mth (length leaf_hashes) leaf_hashes

  pub path : ℕ → List Bytes → ℕ → Option (List Bytes)
  path zero leaf_hashes m = none
  path (suc fuel) [] m = some []
  path (suc fuel) (leaf ∷ []) m = some []
  path (suc fuel) (leaf ∷ next ∷ more) m = do
    let leaf_hashes = leaf ∷ next ∷ more
    k ← largest_power_of_2_less_than (length leaf_hashes)
    elim (ltb m k) [
      | true ↦ do
        deeper ← path fuel (take k leaf_hashes) m
        sibling ← rfc6962_mth (drop k leaf_hashes)
        some (deeper ++ sibling ∷ [])
      | false ↦ do
        deeper ← path fuel (drop k leaf_hashes) (m - k)
        sibling ← rfc6962_mth (take k leaf_hashes)
        some (deeper ++ sibling ∷ [])
    ]

  unfoldable pub rfc6962_path : List Bytes → ℕ → Option (List Bytes)
  unfolding path rfc6962_mth largest_power_of_2_less_than
  rfc6962_path leaf_hashes m = path (suc (length leaf_hashes)) leaf_hashes m

  -- The inner function `rec` of the verifier. The last item of `remaining` is this level's sibling.
  pub rebuild : ℕ → Bytes → ℕ → List Bytes → ℕ → Option Bytes
  rebuild zero h m remaining n = none
  rebuild (suc fuel) h m remaining n = elim (n == 1) [
    | true ↦ elim (split_last remaining) [ none ↦ some h | some _ ↦ none ]
    | false ↦ do
      (deeper, sibling) ← split_last remaining
      k ← largest_power_of_2_less_than n
      elim (ltb m k) [
        | true ↦ do left ← rebuild fuel h m deeper k; some (node left sibling)
        | false ↦ do right ← rebuild fuel h (m - k) deeper (n - k); some (node sibling right)
      ]
  ]

  is_root : Option Bytes → Bytes → Bool
  is_root none expected_root = false
  is_root (some computed) expected_root = beq computed expected_root

  unfoldable pub verify_inclusion_proof : Bytes → ℤ → List Bytes → ℤ → Bytes → Bool
  unfolding is_root rebuild largest_power_of_2_less_than split_last node
  verify_inclusion_proof leaf_hash (negsuc _) proof tree_size expected_root = false
  verify_inclusion_proof leaf_hash (pos index) proof (negsuc _) expected_root = false
  verify_inclusion_proof leaf_hash (pos index) proof (pos tree_size) expected_root =
      if ltb tree_size 1
      then false
      else if leb tree_size index
      then false
      else is_root (rebuild (suc tree_size) leaf_hash index proof tree_size) expected_root
