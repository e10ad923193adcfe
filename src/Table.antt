-- ===== src/Table.antt =====
-- SQL tables with a primary key: `INSERT OR REPLACE`, and `SELECT … WHERE key = ?`.
pub mod Laws
use oversight.Prelude.{
  ◌≡◌, ◌↔◌, Bool, ◌&&◌, Option, none, some, List, [], ◌∷◌, Bytes, beq, beq_iff, if◌then◌else◌,
  arith, refl, true,
}

-- Keys that are compared.
pub record Eq (K : Type 0) : Type 0 where
  pub eqb : K → K → Bool
  pub eqb_iff : (a b : K) → (eqb a b ≡ true) ↔ (a ≡ b)

instance abbrev pub text_eq : Eq Bytes
text_eq = record { eqb = beq; eqb_iff = beq_iff }

pub pair_eq_iff : (a b : Bytes × Bytes) → ((beq a.0 b.0 && beq a.1 b.1) ≡ true) ↔ (a ≡ b)
pair_eq_iff (a, b) (c, d) = (
  λ h. ground (arith, beq_iff a c, beq_iff b d, h),
  λ h. ground (arith, beq_iff a c, beq_iff b d, h),
)

instance abbrev pub pair_eq : Eq (Bytes × Bytes)
pair_eq = record { eqb = λ a b. beq a.0 b.0 && beq a.1 b.1; eqb_iff = pair_eq_iff }

abbrev pub Table : Type 0 → Type 0 → Type 0
Table K V = List (K × V)

module _ {K V : Type 0} ⦃e : Eq K⦄ where
  unfoldable pub find_row : K → Table K V → Option V
  find_row k [] = none
  find_row k ((j, v) ∷ t) = if e.eqb j k then some v else find_row k t

  without : K → Table K V → Table K V
  without k [] = []
  without k ((j, v) ∷ t) = let rest = without k t in if e.eqb j k then rest else (j, v) ∷ rest

  -- The new row stands first; no statement of the registry reads the order of these tables.
  unfoldable pub put_row : K → V → Table K V → Table K V
  unfolding without
  put_row k v t = (k, v) ∷ without k t
