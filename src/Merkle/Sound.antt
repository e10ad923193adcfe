-- ===== src/Merkle/Sound.antt =====
-- The verifier's soundness: an accepted proof is about the leaf that the root was made from, unless
-- two different inputs of the hash with one output are at hand.
use oversight.Prelude.{
  ℕ, zero, suc, ◌+◌, ◌-◌, ◌<◌, ◌≡◌, ◌≢◌, ◌⊎◌, refl, sym, ap, ◌∙◌, pos, true, false, some, List, [],
  ◌∷◌, ◌++◌, Bytes, arith, length, take, drop, get_elem?, ltb, ◌==◌, beq, beq_iff, Bool-cases,
  Option-cases, inl, inr, length-take, length-drop, length-append, get_elem?-take, get_elem?-drop,
  append_inj, All, All-take, All-drop, >>=-eq-some, ◌>>=◌, ltb→lt,
}
use oversight.Merkle.{
  largest_power_of_2_less_than, node, mth, rebuild, split_last, rfc6962_mth, verify_inclusion_proof,
  is_root,
}
use oversight.Merkle.Tree.{mth-IsNode, mth_fuel}

-- A SHA-256 digest in bytes.
abbrev pub IsDigest : Bytes → Type 0
IsDigest d = length d ≡ 32

-- Two inputs that collide.
pub record Collision (sha256 : Bytes → Bytes) : Type 0 where
  pub first : Bytes
  pub second : Bytes
  pub differ : first ≢ second
  pub same : sha256 first ≡ sha256 second

pub unless-Collision {ℓ κ} :
    {A : Type ℓ} {B : Type κ} {sha256 : Bytes → Bytes}
    → A ⊎ Collision sha256
    → (A → B ⊎ Collision sha256)
    → B ⊎ Collision sha256
unless-Collision (inl a) f = f a
unless-Collision (inr collision) f = inr collision

module _ (sha256 : Bytes → Bytes) (digest : (x : Bytes) → IsDigest (sha256 x)) where
  node-IsDigest : (l r : Bytes) → IsDigest (node sha256 l r)
  unfolding node
  node-IsDigest l r = digest (1 ∷ (l ++ r))

  -- One node value from two pairs of children, of which one side has one length.
  pub node_inj :
      (l r l' r' : Bytes)
      → ((length l ≡ length l') ⊎ (length r ≡ length r'))
      → node sha256 l r ≡ node sha256 l' r'
      → ((l ≡ l') × (r ≡ r')) ⊎ Collision sha256
  unfolding node
  node_inj l r l' r' sizes h = elim (Bool-cases (beq (l ++ r) (l' ++ r'))) [
    | inl same ↦
        let e : l ++ r ≡ l' ++ r' = (beq_iff _ _).0 same in
        inl (
          append_inj l r l' r'
            (omega (arith, sizes, ap (length {A = ℕ}) e, length-append l r, length-append l' r')) e)
    | inr other ↦ inr (record {
      first = 1 ∷ (l ++ r);
      second = 1 ∷ (l' ++ r');
      differ = λ e. cc (other, (beq_iff (l ++ r) (l' ++ r')).1 (cc));
      same = h;
    })
  ]

  pub mth-IsDigest :
      (fuel : ℕ) (xs : List Bytes) (root : Bytes)
      → All IsDigest xs
      → mth sha256 fuel xs ≡ some root
      → IsDigest root
  unfolding mth
  mth-IsDigest zero xs root a h = absurd (cc)
  mth-IsDigest (suc fuel) [] root a h = absurd (cc)
  mth-IsDigest (suc fuel) (x ∷ []) root a h = let e : x ≡ root = cc in rw (← e) a.0
  mth-IsDigest (suc fuel) (x ∷ y ∷ zs) root a h =
      let t = mth-IsNode sha256 fuel x y zs root h in rw t.joined (node-IsDigest t.left t.right)

  -- How an accepted proof climbs one level.
  record IsClimb (fuel : ℕ) (h : Bytes) (m : ℕ) (n k : ℕ) (root : Bytes) : Type 0 where
    deeper : List Bytes
    sibling : Bytes
    inner : Bytes
    climbed :
        ((ltb m k ≡ true)
          × (rebuild sha256 fuel h m deeper k ≡ some inner)
          × (root ≡ node sha256 inner sibling))
        ⊎ ((ltb m k ≡ false)
            × (rebuild sha256 fuel h (m - k) deeper (n - k) ≡ some inner)
            × (root ≡ node sha256 sibling inner))

  rebuild-IsClimb :
      (fuel : ℕ) (h : Bytes) (m : ℕ) (remaining : List Bytes) (n k : ℕ) (root : Bytes)
      → (n == 1) ≡ false
      → largest_power_of_2_less_than n ≡ some k
      → rebuild sha256 (suc fuel) h m remaining n ≡ some root
      → IsClimb fuel h m n k root
  unfolding rebuild
  rebuild-IsClimb fuel h m remaining n k root several chosen e =
      elim (Option-cases (split_last remaining)) [
        | inl empty ↦ absurd (ground (arith, several, empty))
        | inr ((deeper, sibling), cut) ↦ elim (Bool-cases (ltb m k)) [
          | inl lower ↦
              let step : (rebuild sha256 fuel h m deeper k >>= λ left.
              some (node sha256 left sibling))
                  ≡ some root =
                ground (arith, several, cut, chosen, lower) in
              let (inner, found, e') = >>=-eq-some (rebuild sha256 fuel h m deeper k) _ step in
              record {
                deeper = deeper;
                sibling = sibling;
                inner = inner;
                climbed = inl (lower, found, cc);
              }
          | inr upper ↦
              let step : (rebuild sha256 fuel h (m - k) deeper (n - k) >>= λ right.
              some (node sha256 sibling right))
                  ≡ some root =
                ground (arith, several, cut, chosen, upper) in
              let (inner, found, e') =
                >>=-eq-some (rebuild sha256 fuel h (m - k) deeper (n - k)) _ step in
              record {
                deeper = deeper;
                sibling = sibling;
                inner = inner;
                climbed = inr (upper, found, cc);
              }
        ]
      ]

  rebuild-IsDigest :
      (fuel : ℕ) (h : Bytes) (m : ℕ) (remaining : List Bytes) (n : ℕ) (root : Bytes)
      → IsDigest h
      → rebuild sha256 fuel h m remaining n ≡ some root
      → IsDigest root
  unfolding rebuild
  rebuild-IsDigest zero h m remaining n root d e = absurd (cc)
  rebuild-IsDigest (suc fuel) h m remaining n root d e = elim (Bool-cases (n == 1)) [
    | inl single ↦ ground (arith, single, d)
    | inr several ↦ elim (Option-cases (largest_power_of_2_less_than n)) [
      | inl refused ↦ absurd (ground (arith, several, refused))
      | inr (k, chosen) ↦
          let c = rebuild-IsClimb fuel h m remaining n k root several chosen e in
          ground
            (arith, c.climbed, node-IsDigest c.inner c.sibling, node-IsDigest c.sibling c.inner)
    ]
  ]

  sound :
      (fuel : ℕ) (xs : List Bytes) (n : ℕ) (h : Bytes) (m : ℕ) (remaining : List Bytes)
      (root : Bytes)
      → length xs ≡ n
      → All IsDigest xs
      → IsDigest h
      → m < n
      → mth sha256 fuel xs ≡ some root
      → rebuild sha256 fuel h m remaining n ≡ some root
      → (get_elem? xs m ≡ some h) ⊎ Collision sha256
  sound zero xs n h m remaining root size a d lt p q = unfold mth in absurd (cc)
  sound (suc fuel) [] n h m remaining root size a d lt p q = absurd (omega arith)
  sound (suc fuel) (x ∷ []) n h (suc m) remaining root size a d lt p q = absurd (omega arith)
  sound (suc fuel) (x ∷ []) n h zero remaining root size a d lt p q =
      unfold mth rebuild in inl (ground (arith, p, q))
  sound (suc fuel) (x ∷ y ∷ zs) n h m remaining root size a d lt p q =
      let xs : List Bytes = x ∷ y ∷ zs in
      let t = mth-IsNode sha256 fuel x y zs root p in
      let several : (n == 1) ≡ false = ground arith in
      let c =
        rebuild-IsClimb fuel h m remaining n t.k root several
          (ap largest_power_of_2_less_than (sym size) ∙ t.chosen) q in
      let size_l : length (take t.k xs) ≡ t.k = omega (arith, t.split.below, length-take t.k xs) in
      let size_r : length (drop t.k xs) ≡ n - t.k = omega (arith, length-drop t.k xs) in
      elim c.climbed [
        | inl (lower, found, e) ↦
            let lt' = ltb→lt m t.k lower in
            let long =
              rebuild-IsDigest fuel h m c.deeper t.k c.inner d found
              ∙ sym (mth-IsDigest fuel (take t.k xs) t.left (All-take _ t.k xs a) t.on_left) in
            unless-Collision
              (node_inj c.inner c.sibling t.left t.right (inl long) (sym e ∙ t.joined))
              λ same.
                unless-Collision
                  (sound fuel (take t.k xs) t.k h m c.deeper t.left size_l (All-take _ t.k xs a) d
                    lt' t.on_left (found ∙ ap some same.0))
                  λ g. inl (sym (get_elem?-take t.k xs m lt') ∙ g)
        | inr (upper, found, e) ↦
            let shift : t.k + (m - t.k) ≡ m = ground arith in
            let long =
              rebuild-IsDigest fuel h (m - t.k) c.deeper (n - t.k) c.inner d found
              ∙ sym (mth-IsDigest fuel (drop t.k xs) t.right (All-drop _ t.k xs a) t.on_right) in
            unless-Collision
              (node_inj c.sibling c.inner t.left t.right (inr long) (sym e ∙ t.joined))
              λ same.
                unless-Collision
                  (sound fuel (drop t.k xs) (n - t.k) h (m - t.k) c.deeper t.right size_r
                    (All-drop _ t.k xs a) d (omega arith) t.on_right (found ∙ ap some same.1))
                  λ g.
                    inl (ap (get_elem? xs) (sym shift) ∙ sym (get_elem?-drop t.k xs (m - t.k)) ∙ g)
      ]

  verify-rebuild :
      (h : Bytes) (m : ℕ) (proof : List Bytes) (n : ℕ) (root : Bytes)
      → verify_inclusion_proof sha256 h (pos m) proof (pos n) root ≡ true
      → (m < n) × (rebuild sha256 (suc n) h m proof n ≡ some root)
  unfolding verify_inclusion_proof is_root
  verify-rebuild h m proof n root q = elim (Option-cases (rebuild sha256 (suc n) h m proof n)) [
    | inl failed ↦ absurd (ground (arith, failed))
    | inr (computed, found) ↦ ground (arith, found, beq_iff computed root)
  ]

  -- If the verifier accepts a digest at an index with the root of a log's leaf digests and the log's
  -- size, whatever the proof, then that digest is the log's leaf there, or two inputs of `sha256`
  -- collide.
  pub verify_sound :
      (xs : List Bytes) (h : Bytes) (m : ℕ) (proof : List Bytes) (root : Bytes)
      → All IsDigest xs
      → IsDigest h
      → rfc6962_mth sha256 xs ≡ some root
      → verify_inclusion_proof sha256 h (pos m) proof (pos (length xs)) root ≡ true
      → (get_elem? xs m ≡ some h) ⊎ Collision sha256
  unfolding rfc6962_mth
  verify_sound xs h m proof root a d p q =
      let (lt, rebuilt) = verify-rebuild h m proof (length xs) root q in
      let enough = mth_fuel sha256 (length xs) (suc (length xs)) xs (omega arith) (omega arith) in
      sound (suc (length xs)) xs (length xs) h m proof root refl a d lt (sym enough ∙ p) rebuilt
