-- ===== src/Merkle/Spec.antt =====
-- The Merkle Tree Hash of RFC 6962 section 2.1 as a relation, and the code's recursion against it.
use native.Mathlib.Nat.{pow-suc}
use oversight.Prelude.{
  ℕ, zero, suc, ◌+◌, ◌*◌, ◌^◌, ◌≤◌, ◌<◌, ◌≡◌, refl, sym, ap, ◌↔◌, some, List, [], ◌∷◌, ◌++◌, Bytes,
  arith, length, take, drop, length-take, length-append, take-append-drop, take-append, drop-append,
}
use oversight.Merkle.{node, mth, rfc6962_mth}
use oversight.Merkle.Split.{IsSplit, largest_power_of_2_less_than_lem}
use oversight.Merkle.Tree.{mth-IsNode}

-- A tree over two leaves or more splits at the largest power of two below their number.
pub data TreeHash (sha256 : Bytes → Bytes) : List Bytes → Bytes → Type 0 where
  leaf : (d : Bytes) → TreeHash sha256 (d ∷ []) d
  branch :
      {all xs ys : List Bytes} {l r : Bytes}
      → all ≡ xs ++ ys
      → IsSplit (length all) (length xs)
      → TreeHash sha256 xs l
      → TreeHash sha256 ys r
      → TreeHash sha256 all (sha256 (1 ∷ (l ++ r)))

pow_pos : (a : ℕ) → 0 < 2 ^ a
pow_pos zero = omega arith
pow_pos (suc a) = simp pow-suc (omega (arith, pow_pos a))

pow_mono : (a b : ℕ) → a < b → 2 ^ a * 2 ≤ 2 ^ b
pow_mono a zero h = absurd (omega arith)
pow_mono zero (suc b) h = simp pow-suc (omega (arith, pow_pos b))
pow_mono (suc a) (suc b) h = simp pow-suc (omega (arith, pow_mono a b (omega arith)))

IsSplit-unique : {n j k : ℕ} → IsSplit n j → IsSplit n k → j ≡ k
IsSplit-unique {n} {j} {k} p q = ground (
  arith,
  p.power,
  q.power,
  p.below,
  q.below,
  p.largest,
  q.largest,
  pow_mono p.exponent q.exponent,
  pow_mono q.exponent p.exponent,
)

module _ (sha256 : Bytes → Bytes) where
  TreeHash-mth :
      (fuel : ℕ) (xs : List Bytes) (root : Bytes)
      → mth sha256 fuel xs ≡ some root
      → TreeHash sha256 xs root
  unfolding mth node
  TreeHash-mth zero xs root h = absurd (cc)
  TreeHash-mth (suc fuel) [] root h = absurd (cc)
  TreeHash-mth (suc fuel) (x ∷ []) root h = let e : x ≡ root = cc in rw (← e) (leaf x)
  TreeHash-mth (suc fuel) (x ∷ y ∷ zs) root h =
      let xs : List Bytes = x ∷ y ∷ zs in
      let t = mth-IsNode sha256 fuel x y zs root h in
      let size : length (take t.k xs) ≡ t.k = omega (arith, t.split.below, length-take t.k xs) in
      rw t.joined (
        branch (sym (take-append-drop t.k xs)) (rw size t.split)
          (TreeHash-mth fuel (take t.k xs) t.left t.on_left)
          (TreeHash-mth fuel (drop t.k xs) t.right t.on_right))

  mth_join :
      (fuel k : ℕ) (all : List Bytes) (l r : Bytes)
      → IsSplit (length all) k
      → mth sha256 fuel (take k all) ≡ some l
      → mth sha256 fuel (drop k all) ≡ some r
      → mth sha256 (suc fuel) all ≡ some (node sha256 l r)
  unfolding mth
  mth_join fuel k [] l r split p q = absurd (omega (arith, split.below))
  mth_join fuel k (x ∷ []) l r split p q = absurd (omega (arith, split.below, split.positive))
  mth_join fuel k (x ∷ y ∷ zs) l r split p q =
      let xs : List Bytes = x ∷ y ∷ zs in
      let (k', chosen, split') = largest_power_of_2_less_than_lem (length xs) (omega arith) in
      let same : k' ≡ k = IsSplit-unique split' split in rw (chosen, same, p, q)

  mth-TreeHash :
      (fuel : ℕ) {xs : List Bytes} {root : Bytes}
      → TreeHash sha256 xs root
      → length xs ≤ fuel
      → mth sha256 fuel xs ≡ some root
  unfolding node
  mth-TreeHash zero (leaf d) h = absurd (omega arith)
  mth-TreeHash (suc fuel) (leaf d) h = unfold mth in refl
  mth-TreeHash zero (branch e split p q) h = absurd (omega (arith, split.below))
  mth-TreeHash (suc fuel) (branch {all = zs} {xs = xs} {ys = ys} {l = l} {r = r} e split p q) h =
      let size : length zs ≡ length xs + length ys =
        omega (arith, ap (length {A = Bytes}) e, length-append xs ys) in
      mth_join fuel (length xs) zs l r split
        (rw (e, take-append (length xs) xs ys refl)
          (mth-TreeHash fuel p (omega (arith, split.below))))
        (rw (e, drop-append (length xs) xs ys refl)
          (mth-TreeHash fuel q (omega (arith, split.positive))))

  -- `_rfc6962_mth` returns a root exactly when the RFC assigns it to the leaves.
  pub rfc6962_mth-iff-TreeHash :
      (xs : List Bytes) (root : Bytes)
      → (rfc6962_mth sha256 xs ≡ some root) ↔ TreeHash sha256 xs root
  unfolding rfc6962_mth
  rfc6962_mth-iff-TreeHash xs root =
      (TreeHash-mth (length xs) xs root, λ t. mth-TreeHash (length xs) t (omega arith))
