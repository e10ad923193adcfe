-- ===== src/Fingerprint/Examples.antt =====
-- Two short texts that share a word, with a sum for the hash.
use oversight.Prelude.{ℕ, ◌+◌, ◌≡◌, refl, true, List, [], ◌∷◌, ◌++◌, Bytes, codes, arith}
use oversight.Result.{ok}
use oversight.Fingerprint.{holds, winnow, normalize_text, winnow_similarity}
use oversight.Fingerprint.Guarantee.{winnow_common}

abbrev same_case : Bytes → Bytes
same_case text = text

abbrev total : Bytes → ℕ
total [] = 0
total (c ∷ s) = c + total s

normal :
    normalize_text same_case (codes "a  bird-song,") ≡ codes "a " ++ (codes "bird" ++ codes "song")
unfolding normalize_text
normal = refl

normal_other : normalize_text same_case (codes "the bird!") ≡ codes "the " ++ (codes "bird" ++ [])
unfolding normalize_text
normal_other = refl

winnow_common_example :
    (fp : List ℕ) × (fp' : List ℕ) × (m : ℕ) × (winnow same_case total (codes "a  bird-song,") 2 3
      ≡ ok fp)
    × (winnow same_case total (codes "the bird!") 2 3 ≡ ok fp')
    × (holds m fp ≡ true)
    × (holds m fp' ≡ true)
winnow_common_example =
    winnow_common same_case total 2 2 (codes "a  bird-song,") (codes "the bird!") (codes "a ")
      (codes "the ") (codes "bird") (codes "song") [] normal normal_other (omega arith)

-- With fewer hashes than a window has, the hashes come in their order in the text, a repeated one
-- twice.
unsorted : winnow same_case total (codes "baba") 2 4 ≡ ok (195 ∷ 195 ∷ 195 ∷ [])
unfolding winnow normalize_text
unsorted = refl

half : winnow_similarity (1 ∷ 2 ∷ 1 ∷ []) (2 ∷ 3 ∷ []) ≡ (1, 3)
unfolding winnow_similarity
half = refl
