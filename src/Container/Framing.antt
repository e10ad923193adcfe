-- ===== src/Container/Framing.antt =====
-- Reading a part that was written with its length, and what a successful read found.
use oversight.Prelude.{
  ℕ, ◌^◌, ◌≤◌, ◌<◌, ◌≡◌, refl, sym, ap, ◌∙◌, true, ◌++◌, Bytes, IsBytes, length, take, drop,
  length-append, length-take, take-append-drop, take-append, drop-append, All-take, All-drop, leb,
  arith,
}
use oversight.Wire.{u32_bytes, unpack_u32}
use oversight.Wire.Laws.{pack_u32_lem, unpack_u32-u32_bytes, length-u32_bytes, u32_bytes-unpack_u32}
use oversight.Result.{value_error, ok, guard, or_raise, >>=-eq-ok, guard-eq-ok, or_raise-eq-ok}
use oversight.Container.{read_exact, read_length, read_field, write_field}

pub read_exact-append :
    (n : ℕ) (xs rest : Bytes) → length xs ≡ n → read_exact n (xs ++ rest) ≡ ok (xs, rest)
unfolding read_exact
read_exact-append n xs rest h =
    let enough : leb n (length (xs ++ rest)) ≡ true = ground (arith, h, length-append xs rest) in
    rw (enough, take-append n xs rest h, drop-append n xs rest h) refl

pub read_exact-eq-ok :
    (n : ℕ) (buf part rest : Bytes)
    → read_exact n buf ≡ ok (part, rest)
    → (buf ≡ part ++ rest) × (length part ≡ n) × (IsBytes buf → IsBytes part × IsBytes rest)
unfolding read_exact
read_exact-eq-ok n buf part rest h =
    let (_, full, h1) = >>=-eq-ok (guard (leb n (length buf)) value_error) _ h in
    let enough = guard-eq-ok (leb n (length buf)) value_error full in
    let p : take n buf ≡ part = cc in
    let q : drop n buf ≡ rest = cc in
    let size : length (take n buf) ≡ n = ground (arith, length-take n buf, enough) in
    (
      rw (sym p, sym q) (sym (take-append-drop n buf)),
      ap length (sym p) ∙ size,
      λ b. (rw p at (All-take _ n buf b), rw q at (All-drop _ n buf b)),
    )

pub read_field-written :
    (cap : ℕ) (part rest : Bytes)
    → length part ≤ cap
    → length part < 2 ^ 32
    → read_field cap (u32_bytes (length part) ++ (part ++ rest)) ≡ ok (part, rest)
unfolding read_field read_length
read_field-written cap part rest below h =
    let within : leb (length part) cap ≡ true = ground (arith, below) in
    rw
      (
        read_exact-append 4 (u32_bytes (length part)) (part ++ rest)
            (length-u32_bytes (length part)),
        unpack_u32-u32_bytes (length part) h,
        within,
        read_exact-append (length part) part rest refl,
      )
      refl

pub read_field-eq-ok :
    (cap : ℕ) (buf part rest : Bytes)
    → IsBytes buf
    → read_field cap buf ≡ ok (part, rest)
    → (buf ≡ u32_bytes (length part) ++ (part ++ rest))
      × (length part ≤ cap)
      × (length part < 2 ^ 32)
      × IsBytes part
      × IsBytes rest
unfolding read_field read_length
read_field-eq-ok cap buf part rest b h =
    let ((n, after), sized, h1) = >>=-eq-ok (read_length cap buf) _ h in
    let ((word, after'), read, h2) = >>=-eq-ok (read_exact 4 buf) _ sized in
    let (m, unpacked, h3) = >>=-eq-ok (or_raise (unpack_u32 word) value_error) _ h2 in
    let (_, within, h4) = >>=-eq-ok (guard (leb m cap) value_error) _ h3 in
    let (whole, _, bytes) = read_exact-eq-ok 4 buf word after' read in
    let (word_bytes, after_bytes) = bytes b in
    let (packed, small) =
      u32_bytes-unpack_u32 word m word_bytes
        (or_raise-eq-ok (unpack_u32 word) value_error unpacked) in
    let same : m ≡ n = cc in
    let same_rest : after' ≡ after = cc in
    let (inner, size, octets) = read_exact-eq-ok n after part rest h1 in
    let (part_bytes, rest_bytes) = octets (rw same_rest at after_bytes) in
    let below = guard-eq-ok (leb m cap) value_error within in
    let count : m ≡ length part = omega (arith, same, size) in
    (
      whole
          ∙ ap (λ w. w ++ after') (sym packed)
          ∙ ap (λ k. u32_bytes k ++ after') count
          ∙ ap (λ r. u32_bytes (length part) ++ r) (same_rest ∙ inner),
      ground (arith, below, count),
      omega (arith, small, count),
      part_bytes,
      rest_bytes,
    )

pub write_field_lem :
    (part : Bytes) → length part < 2 ^ 32 → write_field part ≡ ok (u32_bytes (length part) ++ part)
unfolding write_field
write_field_lem part h = rw (pack_u32_lem (length part) h) refl
