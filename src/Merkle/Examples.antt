-- ===== src/Merkle/Examples.antt =====
-- Runs of the Merkle code over a toy hash of 32 bytes, and instances of its theorems.
use oversight.Prelude.{
  ℕ, ◌+◌, ◌%◌, ◌*◌, map, ◌≡◌, ◌⊎◌, ◌↔◌, refl, pos, negsuc, true, false, some, List, [], ◌∷◌, ◌++◌,
  Bytes, replicate, get_elem?, All,
}
use oversight.Merkle.{
  largest_power_of_2_less_than, rfc6962_mth, rfc6962_path, verify_inclusion_proof,
}
use oversight.Merkle.Spec.{TreeHash, rfc6962_mth-iff-TreeHash}
use oversight.Merkle.Complete.{verify-path}
use oversight.Merkle.Sound.{IsDigest, Collision, verify_sound}
use oversight.Merkle.Binding.{rfc6962_mth_inj}

total : Bytes → ℕ
total [] = 7
total (b ∷ bs) = (b + 31 * total bs) % 65521

-- Not a secure hash; it has the width of one.
toy : Bytes → Bytes
unfolding total
toy x = total x ∷ replicate 31 0

toy-IsDigest : (x : Bytes) → IsDigest (toy x)
unfolding toy
toy-IsDigest x = refl

abbrev leaves : List Bytes
leaves = map toy ((1 ∷ []) ∷ (2 ∷ []) ∷ (3 ∷ []) ∷ (4 ∷ []) ∷ (5 ∷ []) ∷ [])

splits : largest_power_of_2_less_than 5 ≡ some 4
unfolding largest_power_of_2_less_than
splits = refl

abbrev leaf_of : ℕ → Bytes
leaf_of n = toy (n ∷ [])

abbrev pair : Bytes → Bytes → Bytes
pair l r = toy (1 ∷ (l ++ r))

abbrev root_of_leaves : Bytes
root_of_leaves =
    pair (pair (pair (leaf_of 1) (leaf_of 2)) (pair (leaf_of 3) (leaf_of 4))) (leaf_of 5)

abbrev path_of_third : List Bytes
path_of_third = leaf_of 4 ∷ pair (leaf_of 1) (leaf_of 2) ∷ leaf_of 5 ∷ []

root_runs : rfc6962_mth toy leaves ≡ some root_of_leaves
unfolding rfc6962_mth toy
root_runs = refl

path_runs : rfc6962_path toy leaves 2 ≡ some path_of_third
unfolding rfc6962_path toy
path_runs = refl

accepted :
    verify_inclusion_proof toy (leaf_of 3) (pos 2) path_of_third (pos 5) root_of_leaves ≡ true
unfolding verify_inclusion_proof toy
accepted = refl

-- A negative index, a path that is too long and another leaf are refused.
refused :
    (verify_inclusion_proof toy (leaf_of 3) (negsuc 0) path_of_third (pos 5) root_of_leaves ≡ false)
    × (verify_inclusion_proof toy
          (leaf_of 3)
          (pos 2)
          (leaf_of 4 ∷ path_of_third)
          (pos 5)
          root_of_leaves
        ≡ false)
    × (verify_inclusion_proof toy (leaf_of 4) (pos 2) path_of_third (pos 5) root_of_leaves ≡ false)
unfolding verify_inclusion_proof toy
refused = (refl, refl, refl)

leaves-IsDigest : All IsDigest leaves
leaves-IsDigest =
    (toy-IsDigest _, (toy-IsDigest _, (toy-IsDigest _, (toy-IsDigest _, (toy-IsDigest _, tt)))))

rfc6962_mth-iff-TreeHash_example :
    (rfc6962_mth toy leaves ≡ some root_of_leaves) ↔ TreeHash toy leaves root_of_leaves
rfc6962_mth-iff-TreeHash_example = rfc6962_mth-iff-TreeHash toy leaves root_of_leaves

verify-path_example :
    (siblings : List Bytes) × (root : Bytes) × (rfc6962_path toy leaves 2 ≡ some siblings)
    × (rfc6962_mth toy leaves ≡ some root)
    × (verify_inclusion_proof toy (leaf_of 3) (pos 2) siblings (pos 5) root ≡ true)
verify-path_example = verify-path toy leaves 2 (leaf_of 3) refl

verify_sound_example : (get_elem? leaves 2 ≡ some (leaf_of 3)) ⊎ Collision toy
verify_sound_example =
    verify_sound toy toy-IsDigest leaves (leaf_of 3) 2 path_of_third root_of_leaves leaves-IsDigest
      (toy-IsDigest _) root_runs accepted

rfc6962_mth_inj_example : (leaves ≡ leaves) ⊎ Collision toy
rfc6962_mth_inj_example =
    rfc6962_mth_inj toy toy-IsDigest leaves leaves root_of_leaves refl leaves-IsDigest
      leaves-IsDigest root_runs root_runs
