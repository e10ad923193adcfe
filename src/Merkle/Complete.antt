-- ===== src/Merkle/Complete.antt =====
-- Audit paths: every leaf's path is found, and the verifier rebuilds the root from it.
use oversight.Prelude.{
  ℕ, zero, suc, ◌+◌, ◌-◌, ◌≤◌, ◌<◌, ◌≡◌, refl, pos, true, false, some, List, [], ◌∷◌, ◌++◌, Bytes,
  arith, length, take, drop, get_elem?, ltb, ◌==◌, Bool-cases, inl, inr, length-take, length-drop,
  get_elem?-take, get_elem?-drop, beq_self, ◌∙◌, ltb→lt,
}
use oversight.Merkle.{
  largest_power_of_2_less_than, node, mth, path, rebuild, split_last, rfc6962_mth, rfc6962_path,
  verify_inclusion_proof,
}
use oversight.Merkle.Split.{IsSplit, largest_power_of_2_less_than_lem}
use oversight.Merkle.Tree.{mth_fuel, mth_total}

split_last-append {ℓ} :
    {A : Type ℓ} (xs : List A) (x : A) → split_last (xs ++ x ∷ []) ≡ some (xs, x)
unfolding split_last
split_last-append [] x = refl
split_last-append (y ∷ xs) x = rw (split_last-append xs x)

module _ (sha256 : Bytes → Bytes) where
  -- A path from the tree of `xs`, and the root that it leads to.
  record Reaches (fuel : ℕ) (xs : List Bytes) (m : ℕ) (x : Bytes) : Type 0 where
    siblings : List Bytes
    root : Bytes
    found : path sha256 fuel xs m ≡ some siblings
    hashed : mth sha256 fuel xs ≡ some root
    rebuilt : rebuild sha256 fuel x m siblings (length xs) ≡ some root

  module _ (fuel : ℕ) (y z : Bytes) (zs : List Bytes) (m k : ℕ) (x : Bytes) where
    lower-Reaches :
        largest_power_of_2_less_than (length (y ∷ z ∷ zs)) ≡ some k
        → IsSplit (length (y ∷ z ∷ zs)) k
        → length (y ∷ z ∷ zs) ≤ suc fuel
        → ltb m k ≡ true
        → Reaches fuel (take k (y ∷ z ∷ zs)) m x
        → Reaches (suc fuel) (y ∷ z ∷ zs) m x
    unfolding path rebuild mth rfc6962_mth
    lower-Reaches chosen split enough lower t =
        let xs : List Bytes = y ∷ z ∷ zs in
        let size : length (take k xs) ≡ k = omega (arith, split.below, length-take k xs) in
        let rest : length (drop k xs) ≡ length xs - k = length-drop k xs in
        let (r, on_right) =
          mth_total sha256 fuel (drop k xs) (omega (arith, split.below))
            (omega (arith, split.positive)) in
        let fresh : rfc6962_mth sha256 (drop k xs) ≡ some r =
          mth_fuel sha256 (length (drop k xs)) fuel (drop k xs) (omega arith)
            (omega (arith, split.positive))
          ∙ on_right in
        let rebuilt : rebuild sha256 fuel x m t.siblings k ≡ some t.root = rw size at t.rebuilt in
        let several : (length xs == 1) ≡ false = ground arith in
        record {
          siblings = t.siblings ++ r ∷ [];
          root = node sha256 t.root r;
          found = ground (arith, chosen, lower, t.found, fresh);
          hashed = rw (chosen, t.hashed, on_right);
          rebuilt = ground (arith, split_last-append t.siblings r, chosen, lower, rebuilt);
        }

    upper-Reaches :
        largest_power_of_2_less_than (length (y ∷ z ∷ zs)) ≡ some k
        → IsSplit (length (y ∷ z ∷ zs)) k
        → length (y ∷ z ∷ zs) ≤ suc fuel
        → ltb m k ≡ false
        → Reaches fuel (drop k (y ∷ z ∷ zs)) (m - k) x
        → Reaches (suc fuel) (y ∷ z ∷ zs) m x
    unfolding path rebuild mth rfc6962_mth
    upper-Reaches chosen split enough upper t =
        let xs : List Bytes = y ∷ z ∷ zs in
        let size : length (take k xs) ≡ k = omega (arith, split.below, length-take k xs) in
        let rest : length (drop k xs) ≡ length xs - k = length-drop k xs in
        let (l, on_left) =
          mth_total sha256 fuel (take k xs) (omega (arith, split.positive))
            (omega (arith, split.below)) in
        let fresh : rfc6962_mth sha256 (take k xs) ≡ some l =
          mth_fuel sha256 (length (take k xs)) fuel (take k xs) (omega arith)
            (omega (arith, split.below))
          ∙ on_left in
        let rebuilt : rebuild sha256 fuel x (m - k) t.siblings (length xs - k) ≡ some t.root =
          rw rest at t.rebuilt in
        let several : (length xs == 1) ≡ false = ground arith in
        record {
          siblings = t.siblings ++ l ∷ [];
          root = node sha256 l t.root;
          found = ground (arith, chosen, upper, t.found, fresh);
          hashed = rw (chosen, on_left, t.hashed);
          rebuilt = ground (arith, split_last-append t.siblings l, chosen, upper, rebuilt);
        }

  path-Reaches :
      (fuel : ℕ) (xs : List Bytes) (m : ℕ) (x : Bytes)
      → length xs ≤ fuel
      → get_elem? xs m ≡ some x
      → Reaches fuel xs m x
  unfolding path rebuild mth split_last
  path-Reaches zero [] m x e h = absurd (cc)
  path-Reaches zero (y ∷ ys) m x e h = absurd (omega arith)
  path-Reaches (suc fuel) [] m x e h = absurd (cc)
  path-Reaches (suc fuel) (y ∷ []) (suc m) x e h = absurd (cc)
  path-Reaches (suc fuel) (y ∷ []) zero x e h = record {
    siblings = [];
    root = y;
    found = refl;
    hashed = refl;
    rebuilt = cc;
  }
  path-Reaches (suc fuel) (y ∷ z ∷ zs) m x e h =
      let xs : List Bytes = y ∷ z ∷ zs in
      let (k, chosen, split) = largest_power_of_2_less_than_lem (length xs) (omega arith) in
      elim (Bool-cases (ltb m k)) [
        | inl lower ↦ lower-Reaches fuel y z zs m k x chosen split e lower (
            path-Reaches fuel (take k xs) m x (omega (arith, split.below, length-take k xs))
              (get_elem?-take k xs m (ltb→lt m k lower) ∙ h))
        | inr upper ↦
            let shift : k + (m - k) ≡ m = ground arith in
            upper-Reaches fuel y z zs m k x chosen split e upper (
              path-Reaches fuel (drop k xs) (m - k) x
                (omega (arith, split.positive, length-drop k xs))
                (get_elem?-drop k xs (m - k) ∙ rw shift h))
      ]

  get_elem?-lt : (xs : List Bytes) (m : ℕ) (x : Bytes) → get_elem? xs m ≡ some x → m < length xs
  get_elem?-lt [] m x h = absurd (cc)
  get_elem?-lt (y ∷ xs) zero x h = omega arith
  get_elem?-lt (y ∷ xs) (suc m) x h = omega (arith, get_elem?-lt xs m x h)

  -- For every leaf of a log, `_rfc6962_path` returns a path, `_rfc6962_mth` a root, and the
  -- verifier accepts the leaf's hash at its index with that path and that root.
  pub verify-path :
      (xs : List Bytes) (m : ℕ) (x : Bytes)
      → get_elem? xs m ≡ some x
      → (siblings : List Bytes) × (root : Bytes) × (rfc6962_path sha256 xs m ≡ some siblings)
        × (rfc6962_mth sha256 xs ≡ some root)
        × (verify_inclusion_proof sha256 x (pos m) siblings (pos (length xs)) root ≡ true)
  unfolding rfc6962_path rfc6962_mth verify_inclusion_proof
  verify-path xs m x h =
      let t = path-Reaches (suc (length xs)) xs m x (omega arith) h in
      let inside = get_elem?-lt xs m x h in
      (
        t.siblings,
        t.root,
        t.found,
        mth_fuel sha256 (length xs) (suc (length xs)) xs (omega arith) (omega arith) ∙ t.hashed,
        ground (arith, inside, t.rebuilt, beq_self t.root),
      )
