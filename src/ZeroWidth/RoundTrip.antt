-- ===== src/ZeroWidth/RoundTrip.antt =====
-- What is embedded is extracted, as often as it was embedded.
use native.Mathlib.Nat.{mod-eq_of_lt}
use oversight.Prelude.{
  ℕ, zero, suc, ◌+◌, ◌-◌, ◌*◌, ◌/◌, ◌%◌, ◌≤◌, ◌<◌, ◌≡◌, refl, ap, sym, ◌∙◌, false, not, ◌&&◌, none,
  List, [], ◌∷◌, ◌++◌, Bytes, IsBytes, length, arith, ltb, ◌==◌, if◌then◌else◌, replicate,
  append-nil, Bool-cases, inl, inr,
}
use oversight.ZeroWidth.{frame, scatter, scan, embed_zw, extract_zw}
use oversight.ZeroWidth.Scan.{LacksJoin, scan-plain, scan-frame}

-- The frames that `embed_zw` writes into a text of `n` characters.
unfoldable pub copies : ℕ → ℕ → ℕ
copies n density = if ltb n density then 1 else (n - 1) / density

-- An index is a multiple of the density exactly where the quotient grows.
div_step : (i d : ℕ) → 0 < i → 0 < d → (i - 1) / d + (if i % d == 0 then 1 else 0) ≡ i / d
div_step i d h p = grind (arith)

frames : ℕ → ℕ → ℕ → ℕ
frames d i zero = 0
frames d i (suc n) =
    let rest = frames d (i + 1) n in if not (i == 0) && i % d == 0 then suc rest else rest

frames_from : (d i n : ℕ) → 0 < i → 0 < d → frames d i n + (i - 1) / d ≡ (i + n - 1) / d
unfolding frames
frames_from d i zero h p =
    let e : i - 1 ≡ i + 0 - 1 = omega arith in omega (arith, ap (λ m. m / d) e)
frames_from d i (suc n) h p =
    let e : i + 1 + n - 1 ≡ i + suc n - 1 = omega arith in
    let e' : i + 1 - 1 ≡ i = omega arith in
    ground (
      arith,
      frames_from d (i + 1) n (omega arith) p,
      ap (λ m. m / d) e,
      ap (λ m. m / d) e',
      div_step i d h p,
    )

frames_from_start : (d n : ℕ) → 0 < d → frames d 0 n ≡ (n - 1) / d
unfolding frames
frames_from_start d zero p = grind arith
frames_from_start d (suc n) p =
    let e : 1 + n - 1 ≡ suc n - 1 = omega arith in
    let none_yet : (1 - 1) / d ≡ 0 = grind arith in
    ground (arith, frames_from d 1 n (omega arith) p, ap (λ m. m / d) e, none_yet)

module _ (mark_id : Bytes) (valid : IsBytes mark_id) (d : ℕ) where
  scan-scatter :
      (i : ℕ) (text : List ℕ)
      → LacksJoin text
      → scan (length mark_id * 8) none (scatter (frame mark_id) d i text)
        ≡ replicate (frames d i (length text)) mark_id
  unfolding scatter frames
  scan-scatter i [] h = unfold scan in refl
  scan-scatter i (ch ∷ text) (hc, h) =
      let n = length mark_id * 8 in
      let rest = scan-scatter (i + 1) text h in
      elim (Bool-cases (not (i == 0) && i % d == 0)) [
        | inl here ↦
            rw here (
              scan-plain n (ch ∷ []) _ (hc, tt)
              ∙ scan-frame mark_id _ valid
              ∙ ap (◌∷◌ mark_id) rest)
        | inr none_here ↦ rw none_here (scan-plain n (ch ∷ []) _ (hc, tt) ∙ rest)
      ]

  -- Extraction from a marked text that held no frame character gives the mark, once for each copy
  -- that was written: one for a text shorter than the density, and otherwise one for each `d`
  -- characters before the last.
  pub extract_zw-embed_zw :
      (text : List ℕ)
      → LacksJoin text
      → 0 < d
      → extract_zw (embed_zw text mark_id d) (length mark_id)
        ≡ replicate (copies (length text) d) mark_id
  unfolding extract_zw embed_zw copies
  extract_zw-embed_zw text h p =
      let n = length mark_id * 8 in
      elim (Bool-cases (ltb (length text) d)) [
        | inl short ↦ rw short (
            ap (λ f. scan n none (text ++ f)) (sym (append-nil (frame mark_id)))
            ∙ scan-plain n text _ h
            ∙ scan-frame mark_id [] valid)
        | inr long ↦ rw long (
            scan-scatter 0 text h
            ∙ ap (λ k. replicate k mark_id) (frames_from_start d (length text) p))
      ]

scatter_short :
    (m : List ℕ) (d i : ℕ) (text : List ℕ) → i + length text ≤ d → scatter m d i text ≡ text
unfolding scatter
scatter_short m d i [] h = refl
scatter_short m d i (ch ∷ text) h =
    ground (arith, scatter_short m d (i + 1) text (omega arith), mod-eq_of_lt {n = i} {m = d})

-- A text of exactly `density` characters is returned as it is, without a mark.
embed_zw_exact : (text : List ℕ) (mark_id : Bytes) → embed_zw text mark_id (length text) ≡ text
unfolding embed_zw
embed_zw_exact text mark_id =
    let long : ltb (length text) (length text) ≡ false = ground arith in
    rw long (scatter_short (frame mark_id) (length text) 0 text (omega arith))
