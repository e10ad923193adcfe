-- ===== src/Ecc.antt =====
-- oversight_core/ecc.py: the repetition code. A confidence is kept as the two counts whose quotient
-- it is. `sha256` is a parameter of the variant sequence, which semantic.py derives from a mark.
pub mod Vote
pub mod Correct
pub mod Verify
pub mod Examples
use oversight.Prelude.{
  ℕ, zero, suc, ◌+◌, ◌-◌, ◌*◌, ◌/◌, ◌%◌, Bool, true, false, ◌&&◌, ◌||◌, not, Option, none, some,
  List, [], ◌∷◌, ◌++◌, Bytes, beq, length, take, drop, replicate, ltb, leb, ◌==◌, if◌then◌else◌,
  ◌>>=◌,
}
use oversight.Bits.{bits_of}
use oversight.Variants.{mark_id_to_variant_sequence}

-- `coded.extend([bit] * repetitions)` for every bit of every byte
repeat_each : ℕ → List ℕ → List ℕ
repeat_each repetitions [] = []
repeat_each repetitions (bit ∷ bits) = replicate repetitions bit ++ repeat_each repetitions bits

unfoldable pub encode : Bytes → ℕ → List ℕ
unfolding repeat_each
encode payload repetitions = repeat_each repetitions (bits_of payload)

pub sum : List ℕ → ℕ
sum [] = 0
sum (x ∷ xs) = x + sum xs

-- `ones > zeros`, where `zeros = len(group) - ones`
pub majority : List ℕ → ℕ
unfolding sum
majority group = if ltb (length group) (sum group + sum group) then 1 else 0

-- `ones != 0 and zeros != 0`
pub is_split : List ℕ → Bool
unfolding sum
is_split group = not (sum group == 0) && not (length group == sum group)

-- Pad with zeros or truncate to the expected length.
fit : ℕ → List ℕ → List ℕ
fit expected coded =
    take expected (
      if ltb (length coded) expected then coded ++ replicate (expected - length coded) 0 else coded)

-- The loop over the groups: `n` of them are left, and `coded` starts at the next.
recovered_bits : ℕ → ℕ → List ℕ → List ℕ
unfolding majority
recovered_bits zero repetitions coded = []
recovered_bits (suc n) repetitions coded =
    majority (take repetitions coded) ∷ recovered_bits n repetitions (drop repetitions coded)

count_errors : ℕ → ℕ → List ℕ → ℕ
unfolding is_split
count_errors zero repetitions coded = 0
count_errors (suc n) repetitions coded =
    (if is_split (take repetitions coded) then 1 else 0)
    + count_errors n repetitions (drop repetitions coded)

count_unanimous : ℕ → ℕ → List ℕ → ℕ
unfolding is_split
count_unanimous zero repetitions coded = 0
count_unanimous (suc n) repetitions coded =
    (if is_split (take repetitions coded) then 0 else 1)
    + count_unanimous n repetitions (drop repetitions coded)

-- `j` bits of the byte are left; a bit that is missing counts as 0. The bits are 0 or 1, so the
-- `|` of the source adds.
byte_of : ℕ → ℕ → List ℕ → ℕ
byte_of zero byte bits = byte
byte_of (suc j) byte [] = byte_of j (byte * 2) []
byte_of (suc j) byte (bit ∷ bits) = byte_of j (byte * 2 + bit) bits

-- The loop over `range(0, len(bits), 8)`: `n` bytes are left.
bytes_of : ℕ → List ℕ → Bytes
unfolding byte_of
bytes_of zero bits = []
bytes_of (suc n) bits = byte_of 8 0 bits ∷ bytes_of n (drop 8 bits)

-- `confidence` is `unanimous / groups`, and 0 where there is no group.
pub record Decoded : Type 0 where
  pub payload : Bytes
  pub unanimous : ℕ
  pub groups : ℕ
  pub errors : ℕ

unfoldable pub decode : List ℕ → ℕ → ℕ → Decoded
unfolding fit recovered_bits count_errors count_unanimous bytes_of
decode coded_bits payload_len repetitions =
    let n = payload_len * 8 in
    let coded = fit (n * repetitions) coded_bits in
    let recovered = recovered_bits n repetitions coded in
    record {
      payload = bytes_of ((length recovered + 7) / 8) recovered;
      unanimous = count_unanimous n repetitions coded;
      groups = n;
      errors = count_errors n repetitions coded;
    }

-- `class_size` is not 0, for which the source raises. 1 where an observed choice is the expected one, over the shorter of both sequences.
agreement : ℕ → List ℕ → List ℕ → List ℕ
agreement class_size [] expected = []
agreement class_size (obs ∷ observed) [] = []
agreement class_size (obs ∷ observed) (exp ∷ expected) =
    (if obs % class_size == exp % class_size then 1 else 0) ∷ agreement class_size observed expected

-- The confidence is `good / of`, and 0 where `of` is 0.
pub record Verdict : Type 0 where
  pub matches : Bool
  pub good : ℕ
  pub of : ℕ
  pub mark_id : Bytes

-- The comparisons with 0.5 and 0.70 are of the exact fractions.
judge : List ℕ → Bytes → ℕ → Verdict
judge received candidate_mark_id repetitions =
    if leb (length candidate_mark_id * 8 * repetitions) (length received)
    then (let d = decode received (length candidate_mark_id) repetitions in
        record {
          matches =
              beq d.payload candidate_mark_id
              && (not (d.groups == 0) && leb d.groups (2 * d.unanimous));
          good = d.unanimous;
          of = d.groups;
          mark_id = d.payload;
        })
    else record {
      matches = leb (7 * length received) (10 * sum received) && not (length received == 0);
      good = sum received;
      of = length received;
      mark_id = candidate_mark_id;
    }

module _ (sha256 : Bytes → Bytes) where
  unfoldable pub verify_with_ecc : List ℕ → Bytes → ℕ → ℕ → Option Verdict
  unfolding agreement judge decode sum
  verify_with_ecc [] candidate_mark_id class_size repetitions =
      some (record { matches = false; good = 0; of = 0; mark_id = [] })
  verify_with_ecc (first ∷ more) candidate_mark_id class_size repetitions = do
    expected ←
        mark_id_to_variant_sequence sha256 candidate_mark_id (length (first ∷ more)) class_size
    some (judge (agreement class_size (first ∷ more) expected) candidate_mark_id repetitions)
