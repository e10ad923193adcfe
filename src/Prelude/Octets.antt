-- ===== src/Prelude/Octets.antt =====
-- Byte strings as lists of numbers, the text of a literal, and the equality test of two of them.
use Prim.Native.Nat.{ℕ, ◌<◌}
use Prim.Native.Char.{code}
use Prim.Native.String.{String}
use mathlib.Core.Path.{◌≡◌, refl}
use mathlib.Core.Logic.{◌↔◌}
use mathlib.Core.Bool.{Bool, true, false, ◌&&◌}
use mathlib.Core.List.{List, [], ◌∷◌}
use native.Mathlib.Omega.{arith}
use oversight.Prelude.Tests.{◌==◌, ==_iff}
use oversight.Prelude.Lists.{All}

abbrev pub Bytes : Type 0
Bytes = List ℕ

-- Every item is a byte.
abbrev pub IsBytes : Bytes → Type 0
IsBytes = All (λ b. b < 256)

abbrev pub codes : String → Bytes
codes String.[] = []
codes (String.◌∷◌ c s) = code c ∷ codes s

abbrev pub beq : Bytes → Bytes → Bool
beq [] [] = true
beq [] (b ∷ bs) = false
beq (a ∷ as') [] = false
beq (a ∷ as') (b ∷ bs) = a == b && beq as' bs

beq-eq : (xs ys : Bytes) → beq xs ys ≡ true → xs ≡ ys
beq-eq [] [] h = refl
beq-eq [] (b ∷ bs) h = cc
beq-eq (a ∷ as') [] h = cc
beq-eq (a ∷ as') (b ∷ bs) h = ground (arith, beq-eq as' bs, ==_iff a b)

pub beq_self : (xs : Bytes) → beq xs xs ≡ true
beq_self [] = refl
beq_self (a ∷ as') = ground (arith, beq_self as', ==_iff a a)

eq-beq : (xs ys : Bytes) → xs ≡ ys → beq xs ys ≡ true
eq-beq xs ys h = rw h (beq_self ys)

pub beq_iff : (xs ys : Bytes) → (beq xs ys ≡ true) ↔ (xs ≡ ys)
beq_iff xs ys = (beq-eq xs ys, eq-beq xs ys)
