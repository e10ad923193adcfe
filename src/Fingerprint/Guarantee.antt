-- ===== src/Fingerprint/Guarantee.antt =====
-- Two texts with a long passage in common have a hash in common.
use oversight.Prelude.{
  ℕ, zero, suc, ◌+◌, ◌-◌, ◌≤◌, ◌<◌, ◌≡◌, refl, sym, ap, ◌∙◌, true, false, none, some, List, [], ◌∷◌,
  ◌++◌, Bytes, ltb, length, length-append, take, drop, arith,
}
use oversight.Result.{some_inj, ok}
use oversight.Fingerprint.{
  holds, sorted, firsts, minimum, Selection, kgrams, rolling_hash, fingerprint, winnow,
  normalize_text,
}
use oversight.Fingerprint.Cover.{sorted_keeps, Held, scan-Covers, Covers}

-- A fingerprint of enough hashes holds the minimum of every window.
fingerprint-Covers :
    (window : ℕ) (hashes : List ℕ)
    → suc window ≤ length hashes
    → (fp : List ℕ) × (fingerprint (suc window) hashes ≡ ok fp)
      × ((p : ℕ) → p + suc window ≤ length hashes → Covers (suc window) hashes fp p)
unfolding fingerprint
fingerprint-Covers window hashes enough =
    let start : Selection = record { selected = []; prev_min_idx = none } in
    let held : Held 0 hashes start = λ x v e g. absurd (cc) in
    let count = length hashes - suc window + 1 in
    let (s, scans, _, covers) =
      scan-Covers window count 0 hashes start (omega (arith, enough)) held in
    let long : ltb (length hashes) (suc window) ≡ false = ground (arith, enough) in
    (
      sorted s.selected,
      rw (long, scans) refl,
      λ p h.
          let (m, least, held') = covers p (omega (arith, h)) in
          (m, least, sorted_keeps m s.selected held'),
    )

module _ (lower : Bytes → Bytes) (hash : Bytes → ℕ) (k : ℕ) where
  length-kgrams : (n i : ℕ) (text : Bytes) → length (firsts (kgrams lower hash k n i text)) ≡ n
  unfolding kgrams firsts
  length-kgrams zero i text = refl
  length-kgrams (suc n) i text = ap suc (length-kgrams n (suc i) (drop 1 text))

  -- The hashes from a position on are those of the text from that position on.
  drop-kgrams :
      (all n i : ℕ) (front text : Bytes)
      → all ≡ length front + n
      → drop (length front) (firsts (kgrams lower hash k all i (front ++ text)))
        ≡ firsts (kgrams lower hash k n (i + length front) text)
  unfolding kgrams firsts
  drop-kgrams all n i [] text e =
      let same : all ≡ n = omega (arith, e) in
      let index : i ≡ i + 0 = omega arith in rw (same, sym index) refl
  drop-kgrams zero n i (c ∷ front) text e = absurd (omega (arith, e))
  drop-kgrams (suc all) n i (c ∷ front) text e =
      drop-kgrams all n (suc i) front text (omega (arith, e))
      ∙ ap (λ j. firsts (kgrams lower hash k n j text)) (omega arith)

  take_front : (n : ℕ) (s more : Bytes) → n ≤ length s → take n (s ++ more) ≡ take n s
  take_front zero s more h = refl
  take_front (suc n) [] more h = absurd (omega (arith, h))
  take_front (suc n) (c ∷ s) more h = ap (◌∷◌ c) (take_front n s more (omega (arith, h)))

  -- The first hashes depend on a passage at the front only, if it is long enough.
  take-kgrams :
      (w n m i j : ℕ) (s more other : Bytes)
      → w ≤ n
      → w ≤ m
      → w + k ≤ suc (length s)
      → take w (firsts (kgrams lower hash k n i (s ++ more)))
        ≡ take w (firsts (kgrams lower hash k m j (s ++ other)))
  unfolding kgrams firsts
  take-kgrams zero n m i j s more other p q h = refl
  take-kgrams (suc w) zero m i j s more other p q h = absurd (omega (arith, p))
  take-kgrams (suc w) (suc n) zero i j s more other p q h = absurd (omega (arith, q))
  take-kgrams (suc w) (suc n) (suc m) i j [] more other p q h =
      let none_left : w ≡ 0 = omega (arith, h) in
      let empty : k ≡ 0 = omega (arith, h) in rw (none_left, empty) refl
  take-kgrams (suc w) (suc n) (suc m) i j (c ∷ s) more other p q h =
      let fits : k ≤ length (c ∷ s) = omega (arith, h) in
      let head : hash (take k (c ∷ s ++ more)) ≡ hash (take k (c ∷ s ++ other)) =
        ap hash (take_front k (c ∷ s) more fits ∙ sym (take_front k (c ∷ s) other fits)) in
      let tail =
        take-kgrams w n m (suc i) (suc j) s more other (omega (arith, p)) (omega (arith, q))
          (omega (arith, h)) in
      rw (head, tail) refl

  -- The hashes of a text, and those of a passage in it.
  rolling_hash-passage :
      (w : ℕ) (front s more : Bytes)
      → w + k ≤ suc (length s)
      → 0 < w
      → (n : ℕ) × (w ≤ n)
        × (length (firsts (rolling_hash lower hash (front ++ (s ++ more)) k)) ≡ length front + n)
        × (ltb (length (front ++ (s ++ more))) k ≡ false)
        × (drop (length front) (firsts (rolling_hash lower hash (front ++ (s ++ more)) k))
            ≡ firsts (kgrams lower hash k n (length front) (s ++ more)))
  unfolding rolling_hash
  rolling_hash-passage w front s more h positive =
      let text = front ++ (s ++ more) in
      let size : length text ≡ length front + (length s + length more) =
        omega (arith, length-append front (s ++ more), length-append s more) in
      let long : ltb (length text) k ≡ false = ground (arith, size, h, positive) in
      let n = length s + length more - k + 1 in
      let count : length text - k + 1 ≡ length front + n = omega (arith, size, h, positive) in
      (
        n,
        omega (arith, h),
        rw long (length-kgrams (length text - k + 1) 0 text ∙ count),
        long,
        rw long (
            drop-kgrams (length text - k + 1) n 0 front (s ++ more) count
            ∙ ap (λ i. firsts (kgrams lower hash k n i (s ++ more))) (omega arith)),
      )

  winnow_long :
      (w : ℕ) (text : Bytes)
      → ltb (length (normalize_text lower text)) k ≡ false
      → winnow lower hash text k w
        ≡ fingerprint w (firsts (rolling_hash lower hash (normalize_text lower text) k))
  unfolding winnow
  winnow_long w text long = rw long refl

  -- Whatever the hash and the lower case of a character are: two texts whose normal forms share a
  -- passage of `window + k - 1` characters, anywhere in the two, have fingerprints with a hash in
  -- common. The window is not empty.
  pub winnow_common :
      (window : ℕ) (text other a b s a_more b_more : Bytes)
      → normalize_text lower text ≡ a ++ (s ++ a_more)
      → normalize_text lower other ≡ b ++ (s ++ b_more)
      → suc window + k ≤ suc (length s)
      → (fp : List ℕ) × (fp' : List ℕ) × (m : ℕ) × (winnow lower hash text k (suc window) ≡ ok fp)
        × (winnow lower hash other k (suc window) ≡ ok fp')
        × (holds m fp ≡ true)
        × (holds m fp' ≡ true)
  winnow_common window text other a b s a_more b_more e e' h =
      let positive : 0 < suc window = omega arith in
      let (n, room, size, long, hashes) = rolling_hash-passage (suc window) a s a_more h positive in
      let (n', room', size', long', hashes') =
        rolling_hash-passage (suc window) b s b_more h positive in
      let (fp, made, covers) =
        fingerprint-Covers window (firsts (rolling_hash lower hash (a ++ (s ++ a_more)) k))
          (omega (arith, size, room)) in
      let (fp', made', covers') =
        fingerprint-Covers window (firsts (rolling_hash lower hash (b ++ (s ++ b_more)) k))
          (omega (arith, size', room')) in
      let (m, least, held) = covers (length a) (omega (arith, size, room)) in
      let (m', least', held') = covers' (length b) (omega (arith, size', room')) in
      let same = take-kgrams (suc window) n n' (length a) (length b) s a_more b_more room room' h in
      let minima : some m ≡ some m' =
        sym least
        ∙ ap (λ l. minimum (take (suc window) l)) hashes
        ∙ ap minimum same
        ∙ ap (λ l. minimum (take (suc window) l)) (sym hashes')
        ∙ least' in
      (
        fp,
        fp',
        m,
        winnow_long (suc window) text (ap (λ t. ltb (length t) k) e ∙ long)
            ∙ ap (λ t. fingerprint (suc window) (firsts (rolling_hash lower hash t k))) e
            ∙ made,
        winnow_long (suc window) other (ap (λ t. ltb (length t) k) e' ∙ long')
            ∙ ap (λ t. fingerprint (suc window) (firsts (rolling_hash lower hash t k))) e'
            ∙ made',
        held,
        ap (λ v. holds v fp') (some_inj minima) ∙ held',
      )
