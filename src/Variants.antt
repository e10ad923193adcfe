-- ===== src/Variants.antt =====
-- oversight_core/semantic.py: `_mark_id_to_variant_sequence`, the choices that a mark stands for.
-- `sha256` is a parameter. `none` is the `OverflowError` of a counter past four bytes.
pub mod Laws
use oversight.Prelude.{
  ℕ, zero, suc, ◌+◌, ◌-◌, ◌%◌, Option, none, some, List, [], ◌∷◌, ◌++◌, Bytes, length, ◌==◌, ◌>>=◌,
  true, false,
}
use oversight.Wire.{pack_u32}

-- `class_size` is not 0, for which the source raises. The loop over one digest: it stops when `room` more choices are made.
from_digest : ℕ → ℕ → Bytes → List ℕ
from_digest zero class_size digest = []
from_digest (suc room) class_size [] = []
from_digest (suc room) class_size (byte ∷ digest) =
    (byte % class_size) ∷ from_digest room class_size digest

module _ (sha256 : Bytes → Bytes) where
  -- `while len(out) < n_instances`, with `room` choices missing. Every digest that is not empty
  -- makes one at least, so `room` rounds are enough.
  pub expand : ℕ → Bytes → ℕ → ℕ → ℕ → Option (List ℕ)
  expand fuel mark_id ctr zero class_size = some []
  expand zero mark_id ctr (suc room) class_size = none
  expand (suc fuel) mark_id ctr (suc room) class_size = do
    counter ← pack_u32 ctr
    let chosen = from_digest (suc room) class_size (sha256 (mark_id ++ counter))
    rest ← expand fuel mark_id (ctr + 1) (suc room - length chosen) class_size
    some (chosen ++ rest)

  unfoldable pub mark_id_to_variant_sequence : Bytes → ℕ → ℕ → Option (List ℕ)
  unfolding expand from_digest pack_u32
  mark_id_to_variant_sequence mark_id n_instances class_size =
      expand n_instances mark_id 0 n_instances class_size
