-- ===== src/Merkle/Tree.antt =====
-- The recursion of `_rfc6962_mth` taken apart at a node, and its independence of the fuel.
use oversight.Prelude.{
  ℕ, zero, suc, ◌≤◌, ◌<◌, ◌≡◌, refl, some, List, [], ◌∷◌, Bytes, arith, length, take, drop,
  length-take, length-drop, >>=-eq-some,
}
use oversight.Merkle.{largest_power_of_2_less_than, node, mth}
use oversight.Merkle.Split.{IsSplit, largest_power_of_2_less_than_lem}

module _ (sha256 : Bytes → Bytes) where
  -- How the root of two leaves or more is made.
  pub record IsNode (fuel : ℕ) (xs : List Bytes) (root : Bytes) : Type 0 where
    pub k : ℕ
    pub left : Bytes
    pub right : Bytes
    pub chosen : largest_power_of_2_less_than (length xs) ≡ some k
    pub split : IsSplit (length xs) k
    pub on_left : mth sha256 fuel (take k xs) ≡ some left
    pub on_right : mth sha256 fuel (drop k xs) ≡ some right
    pub joined : root ≡ node sha256 left right

  pub mth-IsNode :
      (fuel : ℕ) (x y : Bytes) (zs : List Bytes) (root : Bytes)
      → mth sha256 (suc fuel) (x ∷ y ∷ zs) ≡ some root
      → IsNode fuel (x ∷ y ∷ zs) root
  unfolding mth
  mth-IsNode fuel x y zs root h =
      let xs : List Bytes = x ∷ y ∷ zs in
      let (k, chosen, split) = largest_power_of_2_less_than_lem (length xs) (omega arith) in
      let h1 = rw chosen at h in
      let (l, on_left, h2) = >>=-eq-some (mth sha256 fuel (take k xs)) _ h1 in
      let (r, on_right, h3) = >>=-eq-some (mth sha256 fuel (drop k xs)) _ h2 in
      record {
        k = k;
        left = l;
        right = r;
        chosen = chosen;
        split = split;
        on_left = on_left;
        on_right = on_right;
        joined = cc;
      }

  -- Enough fuel: every list with a leaf has a root.
  pub mth_total :
      (fuel : ℕ) (xs : List Bytes)
      → 0 < length xs
      → length xs ≤ fuel
      → (root : Bytes) × (mth sha256 fuel xs ≡ some root)
  unfolding mth
  mth_total zero xs h e = absurd (omega arith)
  mth_total (suc fuel) [] h e = absurd (omega arith)
  mth_total (suc fuel) (x ∷ []) h e = (x, refl)
  mth_total (suc fuel) (x ∷ y ∷ zs) h e =
      let xs : List Bytes = x ∷ y ∷ zs in
      let (k, chosen, split) = largest_power_of_2_less_than_lem (length xs) (omega arith) in
      let (l, on_left) =
        mth_total fuel (take k xs) (omega (arith, split.positive, split.below, length-take k xs))
          (omega (arith, split.below, length-take k xs)) in
      let (r, on_right) =
        mth_total fuel (drop k xs) (omega (arith, split.below, length-drop k xs))
          (omega (arith, split.positive, length-drop k xs)) in
      (node sha256 l r, rw (chosen, on_left, on_right))

  -- More fuel gives the same root.
  pub mth_fuel :
      (f g : ℕ) (xs : List Bytes)
      → length xs ≤ f
      → length xs ≤ g
      → mth sha256 f xs ≡ mth sha256 g xs
  unfolding mth
  mth_fuel zero zero xs p q = refl
  mth_fuel zero (suc g) [] p q = refl
  mth_fuel zero (suc g) (x ∷ xs) p q = absurd (omega arith)
  mth_fuel (suc f) zero [] p q = refl
  mth_fuel (suc f) zero (x ∷ xs) p q = absurd (omega arith)
  mth_fuel (suc f) (suc g) [] p q = refl
  mth_fuel (suc f) (suc g) (x ∷ []) p q = refl
  mth_fuel (suc f) (suc g) (x ∷ y ∷ zs) p q =
      let xs : List Bytes = x ∷ y ∷ zs in
      let (k, chosen, split) = largest_power_of_2_less_than_lem (length xs) (omega arith) in
      let on_left =
        mth_fuel f g (take k xs) (omega (arith, split.below, length-take k xs))
          (omega (arith, split.below, length-take k xs)) in
      let on_right =
        mth_fuel f g (drop k xs) (omega (arith, split.positive, length-drop k xs))
          (omega (arith, split.positive, length-drop k xs)) in
      rw (chosen, on_left, on_right)
