-- ===== src/Ecc/Examples.antt =====
-- Runs of the code, and instances of its theorems.
use oversight.Prelude.{
  ℕ, ◌+◌, ◌<◌, ◌≡◌, ◌≢◌, refl, false, some, List, [], ◌∷◌, Bytes, length, replicate, arith, All,
}
use oversight.Bits.{bits_of}
use oversight.Variants.{mark_id_to_variant_sequence}
use oversight.Variants.Laws.{mark_id_to_variant_sequence_total}
use oversight.Ecc.{decode, Verdict, verify_with_ecc}
use oversight.Ecc.Correct.{damaged, decode-IsCorrectable}
use oversight.Ecc.Verify.{verify_with_ecc_long_copy}

abbrev mark : Bytes
mark = 0xa5 ∷ []

-- The word for `mark` with one wrong bit in the second and in the last group.
abbrev noisy : List ℕ
noisy =
    1 ∷ 1 ∷ 1 ∷ 0 ∷ 1 ∷ 0 ∷ 1 ∷ 1 ∷ 1 ∷ 0 ∷ 0 ∷ 0 ∷ 0 ∷ 0 ∷ 0 ∷ 1 ∷ 1 ∷ 1 ∷ 0 ∷ 0 ∷ 0 ∷ 0 ∷ 1 ∷ 1
    ∷ []

noisy_runs : decode noisy 1 3 ≡ record { payload = mark; unanimous = 6; groups = 8; errors = 2 }
unfolding decode
noisy_runs = refl

even_tie : (decode (1 ∷ 0 ∷ []) 1 2).payload ≡ 0 ∷ []
unfolding decode
even_tie = refl

decode-IsCorrectable_example :
    ((decode noisy 1 3).payload ≡ mark)
    × ((decode noisy 1 3).errors ≡ damaged 3 (bits_of mark) noisy)
    × ((decode noisy 1 3).unanimous + (decode noisy 1 3).errors ≡ (decode noisy 1 3).groups)
unfolding bits_of
decode-IsCorrectable_example = decode-IsCorrectable mark 3 noisy (omega arith) (omega arith)

-- A stand-in for the hash: its digests are three bytes long.
abbrev short_hash : Bytes → Bytes
short_hash x = 1 ∷ 5 ∷ 3 ∷ []

abbrev choices : List ℕ
choices =
    1 ∷ 2 ∷ 0 ∷ 1 ∷ 2 ∷ 0 ∷ 1 ∷ 2 ∷ 0 ∷ 1 ∷ 2 ∷ 0 ∷ 1 ∷ 2 ∷ 0 ∷ 1 ∷ 2 ∷ 0 ∷ 1 ∷ 2 ∷ 0 ∷ 1 ∷ 2 ∷ 0
    ∷ []

choices_run : mark_id_to_variant_sequence short_hash mark 24 3 ≡ some choices
unfolding mark_id_to_variant_sequence
choices_run = refl

mark_id_to_variant_sequence_total_example :
    (found : List ℕ) × (mark_id_to_variant_sequence short_hash mark 24 3 ≡ some found)
    × (length found ≡ 24)
    × All (λ v. v < 3) found
mark_id_to_variant_sequence_total_example =
    mark_id_to_variant_sequence_total short_hash (λ x. omega arith) mark 24 3 (omega arith)
      (omega arith)

other_mark : mark ≢ replicate 1 255
other_mark e = ground (arith, e)

verify_with_ecc_long_copy_example :
    (v : Verdict) × (verify_with_ecc short_hash choices mark 3 3 ≡ some v)
    × (v.matches ≡ false)
    × (v.mark_id ≡ replicate 1 255)
verify_with_ecc_long_copy_example =
    verify_with_ecc_long_copy short_hash mark 3 3 choices (omega arith) other_mark (omega arith)
      choices_run
