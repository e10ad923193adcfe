-- ===== src/Table/Laws.antt =====
-- Reading after writing.
use oversight.Prelude.{◌≡◌, none, some, [], ◌∷◌, true, if◌then◌else◌, arith, refl}
use oversight.Table.{Eq, Table, find_row, without, put_row}

module _ {K V : Type 0} ⦃e : Eq K⦄ where
  find_row-without :
      (k j : K) (t : Table K V)
      → find_row j (without k t) ≡ (if e.eqb k j then none else find_row j t)
  unfolding find_row without
  find_row-without k j [] = ground arith
  find_row-without k j ((i, v) ∷ t) =
      ground (arith, find_row-without k j t, e.eqb_iff i k, e.eqb_iff i j, e.eqb_iff k j)

  pub find_row-put_row :
      (k j : K) (v : V) (t : Table K V)
      → find_row j (put_row k v t) ≡ (if e.eqb k j then some v else find_row j t)
  unfolding find_row put_row
  find_row-put_row k j v t = ground (arith, find_row-without k j t)

module _ {K : Type 0} ⦃e : Eq K⦄ where
  pub eqb_refl : (k : K) → e.eqb k k ≡ true
  eqb_refl k = (e.eqb_iff k k).1 refl
