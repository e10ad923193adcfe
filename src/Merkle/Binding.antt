-- ===== src/Merkle/Binding.antt =====
-- The root binds the log: two logs of one size with one root hold the same leaves.
use oversight.Prelude.{
  ℕ, zero, suc, ◌≡◌, ◌⊎◌, refl, sym, ap, ◌∙◌, some, List, [], ◌∷◌, Bytes, arith, length, take, drop,
  inl, length-take, length-drop, take-append-drop, All, All-take, All-drop,
}
use oversight.Merkle.{largest_power_of_2_less_than, mth, rfc6962_mth}
use oversight.Merkle.Tree.{mth-IsNode}
use oversight.Merkle.Sound.{IsDigest, Collision, unless-Collision, node_inj, mth-IsDigest}

module _ (sha256 : Bytes → Bytes) (digest : (x : Bytes) → IsDigest (sha256 x)) where
  mth_inj :
      (fuel : ℕ) (xs ys : List Bytes) (root : Bytes)
      → length xs ≡ length ys
      → All IsDigest xs
      → All IsDigest ys
      → mth sha256 fuel xs ≡ some root
      → mth sha256 fuel ys ≡ some root
      → (xs ≡ ys) ⊎ Collision sha256
  mth_inj zero xs ys root size a b p q = unfold mth in absurd (cc)
  mth_inj (suc fuel) [] [] root size a b p q = inl refl
  mth_inj (suc fuel) [] (y ∷ ys) root size a b p q = absurd (omega arith)
  mth_inj (suc fuel) (x ∷ xs) [] root size a b p q = absurd (omega arith)
  mth_inj (suc fuel) (x ∷ []) (y ∷ []) root size a b p q = unfold mth in inl (cc)
  mth_inj (suc fuel) (x ∷ []) (y ∷ y' ∷ ys) root size a b p q = absurd (omega arith)
  mth_inj (suc fuel) (x ∷ x' ∷ xs) (y ∷ []) root size a b p q = absurd (omega arith)
  mth_inj (suc fuel) (x ∷ x' ∷ xs) (y ∷ y' ∷ ys) root size a b p q =
      let us : List Bytes = x ∷ x' ∷ xs in
      let vs : List Bytes = y ∷ y' ∷ ys in
      let s = mth-IsNode sha256 fuel x x' xs root p in
      let t = mth-IsNode sha256 fuel y y' ys root q in
      let wl = length-take s.k us in
      let wr = length-drop s.k us in
      let zl = length-take s.k vs in
      let zr = length-drop s.k vs in
      let dl =
        mth-IsDigest sha256 digest fuel (take s.k us) s.left (All-take _ s.k us a) s.on_left in
      let dl' =
        mth-IsDigest sha256 digest fuel (take t.k vs) t.left (All-take _ t.k vs b) t.on_left in
      let one : s.k ≡ t.k = cc (s.chosen, t.chosen, ap largest_power_of_2_less_than size) in
      let vl : mth sha256 fuel (take s.k vs) ≡ some t.left = rw one t.on_left in
      let vr : mth sha256 fuel (drop s.k vs) ≡ some t.right = rw one t.on_right in
      unless-Collision
        (node_inj sha256 digest s.left s.right t.left t.right (inl (dl ∙ sym dl'))
          (sym s.joined ∙ t.joined))
        λ same.
          unless-Collision
            (mth_inj fuel (take s.k us) (take s.k vs) t.left (omega arith) (All-take _ s.k us a)
              (All-take _ s.k vs b) (s.on_left ∙ ap some same.0) vl)
            λ el.
              unless-Collision
                (mth_inj fuel (drop s.k us) (drop s.k vs) t.right (omega arith)
                  (All-drop _ s.k us a) (All-drop _ s.k vs b) (s.on_right ∙ ap some same.1) vr)
                λ er. inl (cc (take-append-drop s.k us, take-append-drop s.k vs, el, er))

  -- Two lists of leaf digests of one length with one root are equal, or two inputs of `sha256`
  -- collide: a log cannot drop, change or reorder a leaf under a signed root and size.
  pub rfc6962_mth_inj :
      (xs ys : List Bytes) (root : Bytes)
      → length xs ≡ length ys
      → All IsDigest xs
      → All IsDigest ys
      → rfc6962_mth sha256 xs ≡ some root
      → rfc6962_mth sha256 ys ≡ some root
      → (xs ≡ ys) ⊎ Collision sha256
  unfolding rfc6962_mth
  rfc6962_mth_inj xs ys root size a b p q =
      mth_inj (length xs) xs ys root size a b p (ap (λ n. mth sha256 n ys) size ∙ q)
