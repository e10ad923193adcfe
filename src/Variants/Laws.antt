-- ===== src/Variants/Laws.antt =====
-- The sequence has the length that is asked for, and every choice names a member of the class.
use native.Mathlib.Nat.{mod-lt}
use oversight.Prelude.{
  ℕ, zero, suc, ◌+◌, ◌-◌, ◌^◌, ◌≤◌, ◌<◌, ◌≡◌, refl, some, List, [], ◌∷◌, ◌++◌, Bytes, length, arith,
  min, All, All-append, length-append,
}
use oversight.Wire.{u32_bytes}
use oversight.Wire.Laws.{pack_u32_lem}
use oversight.Variants.{from_digest, expand, mark_id_to_variant_sequence}

length-from_digest : (room c : ℕ) (d : Bytes) → length (from_digest room c d) ≡ min room (length d)
unfolding from_digest
length-from_digest zero c d = omega arith
length-from_digest (suc room) c [] = omega arith
length-from_digest (suc room) c (b ∷ d) = omega (arith, length-from_digest room c d)

from_digest-lt : (room c : ℕ) (d : Bytes) → 0 < c → All (λ v. v < c) (from_digest room c d)
unfolding from_digest
from_digest-lt zero c d h = tt
from_digest-lt (suc room) c [] h = tt
from_digest-lt (suc room) c (b ∷ d) h = (mod-lt b h, from_digest-lt room c d h)

module _ (sha256 : Bytes → Bytes) (nonempty : (x : Bytes) → 0 < length (sha256 x)) where
  record IsSequence (n c : ℕ) (fuel : ℕ) (mark_id : Bytes) (ctr : ℕ) : Type 0 where
    choices : List ℕ
    expanded : expand sha256 fuel mark_id ctr n c ≡ some choices
    as_long : length choices ≡ n
    in_class : All (λ v. v < c) choices

  expand-IsSequence :
      (fuel : ℕ) (mark_id : Bytes) (ctr room c : ℕ)
      → 0 < c
      → room ≤ fuel
      → ctr + room < 2 ^ 32
      → IsSequence room c fuel mark_id ctr
  unfolding expand
  expand-IsSequence fuel mark_id ctr zero c h e s = record {
    choices = [];
    expanded = refl;
    as_long = refl;
    in_class = tt;
  }
  expand-IsSequence zero mark_id ctr (suc room) c h e s = absurd (omega arith)
  expand-IsSequence (suc fuel) mark_id ctr (suc room) c h e s =
      let digest = sha256 (mark_id ++ u32_bytes ctr) in
      let chosen = from_digest (suc room) c digest in
      let size = length-from_digest (suc room) c digest in
      let some_byte = nonempty (mark_id ++ u32_bytes ctr) in
      let t =
        expand-IsSequence fuel mark_id (ctr + 1) (suc room - length chosen) c h (omega arith)
          (omega arith) in
      record {
        choices = chosen ++ t.choices;
        expanded = rw (pack_u32_lem ctr (omega arith), t.expanded);
        as_long = omega (arith, t.as_long, length-append chosen t.choices);
        in_class = All-append _ chosen t.choices (from_digest-lt (suc room) c digest h) t.in_class;
      }

  -- For a class that has a member and fewer than 2 ^ 32 instances, the derivation returns as many
  -- choices as there are instances, each of them below the class's size.
  pub mark_id_to_variant_sequence_total :
      (mark_id : Bytes) (n c : ℕ)
      → 0 < c
      → n < 2 ^ 32
      → (choices : List ℕ) × (mark_id_to_variant_sequence sha256 mark_id n c ≡ some choices)
        × (length choices ≡ n)
        × All (λ v. v < c) choices
  unfolding mark_id_to_variant_sequence
  mark_id_to_variant_sequence_total mark_id n c h s =
      let t = expand-IsSequence n mark_id 0 n c h (omega arith) (omega arith) in
      (t.choices, t.expanded, t.as_long, t.in_class)
