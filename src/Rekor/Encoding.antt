-- ===== src/Rekor/Encoding.antt =====
-- The pre-authentication encoding of oversight_core/rekor.py.
use oversight.Prelude.{
  ℕ, ◌≡◌, refl, sym, ap, ◌∙◌, [], ◌∷◌, ◌++◌, Bytes, pos, length, take, drop, take-append,
  drop-append, arith,
}
use oversight.Jcs.{decimal}
use oversight.Jcs.Digits.{decimal_inj, Dense, decimal-Dense}
use oversight.Result.{value_error, ok, guard, >>=-eq-ok, ok_inj}
use oversight.Rekor.{pae, is_ascii}

head_of : Bytes → ℕ
head_of [] = 0
head_of (c ∷ s) = c

rest_of : Bytes → Bytes
rest_of [] = []
rest_of (c ∷ s) = s

-- A text is cut at its first space in one way.
cut_inj :
    (xs ys rest rest' : Bytes)
    → Dense xs
    → Dense ys
    → xs ++ 32 ∷ rest ≡ ys ++ 32 ∷ rest'
    → (xs ≡ ys) × (rest ≡ rest')
unfolding rest_of head_of
cut_inj [] [] rest rest' d d' h = (refl, ap rest_of h)
cut_inj [] (y ∷ ys) rest rest' d (hy, d') h =
    let same : 32 ≡ y = ap head_of h in absurd (omega (arith, hy, same))
cut_inj (x ∷ xs) [] rest rest' (hx, d) d' h =
    let same : x ≡ 32 = ap head_of h in absurd (omega (arith, hx, same))
cut_inj (x ∷ xs) (y ∷ ys) rest rest' (hx, d) (hy, d') h =
    let (e, f) = cut_inj xs ys rest rest' d d' (ap rest_of h) in
    let same : x ≡ y = ap head_of h in (rw (same, e) refl, f)

-- A part behind its length, before a space and more.
part_inj :
    (xs ys rest rest' : Bytes)
    → decimal (pos (length xs)) ++ 32 ∷ (xs ++ rest)
      ≡ decimal (pos (length ys)) ++ 32 ∷ (ys ++ rest')
    → (xs ≡ ys) × (rest ≡ rest')
part_inj xs ys rest rest' h =
    let (digits, tails) =
      cut_inj (decimal (pos (length xs))) (decimal (pos (length ys))) (xs ++ rest) (ys ++ rest')
        (decimal-Dense (length xs)) (decimal-Dense (length ys)) h in
    let size : length xs ≡ length ys = decimal_inj (length xs) (length ys) digits in
    (
      sym (take-append (length xs) xs rest refl)
          ∙ ap (take (length xs)) tails
          ∙ take-append (length xs) ys rest' (sym size),
      sym (drop-append (length xs) xs rest refl)
          ∙ ap (drop (length xs)) tails
          ∙ drop-append (length xs) ys rest' (sym size),
    )

-- The bytes that are signed tell the type and the payload: two pairs with one encoding are one pair.
pub pae_inj :
    (payload_type payload payload_type' payload' message : Bytes)
    → pae payload_type payload ≡ ok message
    → pae payload_type' payload' ≡ ok message
    → (payload_type ≡ payload_type') × (payload ≡ payload')
unfolding pae rest_of
pae_inj t b t' b' message h h' =
    let (_, _, made) = >>=-eq-ok (guard (is_ascii t) value_error) _ h in
    let (_, _, made') = >>=-eq-ok (guard (is_ascii t') value_error) _ h' in
    let parts = ap (drop 7) (ok_inj (made ∙ sym made')) in
    let (types, tails) =
      part_inj t t' (32 ∷ (decimal (pos (length b)) ++ 32 ∷ b))
        (32 ∷ (decimal (pos (length b')) ++ 32 ∷ b')) parts in
    let (digits, payloads) =
      cut_inj (decimal (pos (length b))) (decimal (pos (length b'))) b b' (decimal-Dense (length b))
        (decimal-Dense (length b')) (ap rest_of tails) in
    (types, payloads)
