-- ===== src/Fingerprint/Cover.antt =====
-- The loop of `winnow` selects the minimum of every window.
use oversight.Prelude.{
  ℕ, zero, suc, ◌+◌, ◌≤◌, ◌<◌, ◌≡◌, refl, sym, ap, ◌∙◌, true, ◌||◌, inl, inr, Option, none, some,
  List, [], ◌∷◌, leb, ◌==◌, ==_iff, Bool-cases, Option-cases, length, take, drop, get_elem?,
  if◌then◌else◌, arith,
}
use oversight.Result.{some_inj, ok}
use oversight.Fingerprint.{
  holds, add, insert, sorted, minimum, rightmost, Selection, is_index, chosen, select, scan,
}

pub add-holds : (v : ℕ) (ws : List ℕ) → holds v (add v ws) ≡ true
unfolding holds add
add-holds v ws = elim (Bool-cases (holds v ws)) [
  | inl t ↦ rw (t, add) t
  | inr f ↦ rw (f, add) (ground arith)
]

pub add_keeps : (v w : ℕ) (ws : List ℕ) → holds w ws ≡ true → holds w (add v ws) ≡ true
unfolding holds add
add_keeps v w ws h = elim (Bool-cases (holds v ws)) [
  | inl t ↦ rw (t, add) h
  | inr f ↦ rw (f, add) (ground (arith, h))
]

insert_keeps :
    (v w : ℕ) (ws : List ℕ) → (v == w || holds v ws) ≡ true → holds v (insert w ws) ≡ true
unfolding holds insert
insert_keeps v w [] h = h
insert_keeps v w (x ∷ ws) h = ground (arith, h, insert_keeps v w ws)

pub sorted_keeps : (v : ℕ) (ws : List ℕ) → holds v ws ≡ true → holds v (sorted ws) ≡ true
unfolding holds sorted
sorted_keeps v [] h = h
sorted_keeps v (w ∷ ws) h = insert_keeps v w (sorted ws) (ground (arith, h, sorted_keeps v ws))

-- Where the last index of a minimum is known, the value at it has been selected.
abbrev pub Held : ℕ → List ℕ → Selection → Type 0
Held i hashes s =
    (x v : ℕ)
    → s.prev_min_idx ≡ some (i + x)
    → get_elem? hashes x ≡ some v
    → holds v s.selected ≡ true

minimum-some :
    (v : ℕ) (vs : List ℕ) → (m : ℕ) × (minimum (v ∷ vs) ≡ some m) × (holds m (v ∷ vs) ≡ true)
unfolding minimum holds
minimum-some v [] = (v, refl, ground arith)
minimum-some v (w ∷ vs) =
    let (m, e, h) = minimum-some w vs in ((if leb v m then v else m), rw e refl, ground (arith, h))

rightmost-eq-some :
    (m : ℕ) (vs : List ℕ) (j : ℕ) → rightmost m vs ≡ some j → get_elem? vs j ≡ some m
unfolding rightmost
rightmost-eq-some m [] j h = absurd (cc)
rightmost-eq-some m (v ∷ vs) j h = elim (Option-cases (rightmost m vs)) [
  | inr (k, e) ↦
      let at : j ≡ suc k = some_inj (sym h ∙ rw e refl) in rw at (rightmost-eq-some m vs k e)
  | inl e ↦ elim (Bool-cases (v == m)) [
    | inl t ↦
        let at : j ≡ 0 = some_inj (sym h ∙ rw (e, t) refl) in rw at (ap some ((==_iff v m).0 t))
    | inr f ↦ let no : none ≡ some j = rw (e, f) at h in absurd (cc)
  ]
]

rightmost-some : (m : ℕ) (vs : List ℕ) → holds m vs ≡ true → (j : ℕ) × (rightmost m vs ≡ some j)
unfolding holds rightmost
rightmost-some m [] h = absurd (cc)
rightmost-some m (v ∷ vs) h = elim (Option-cases (rightmost m vs)) [
  | inr (j, e) ↦ (suc j, rw e refl)
  | inl e ↦ elim (Bool-cases (holds m vs)) [
    | inl t ↦
        let (j, e') = rightmost-some m vs t in let no : none ≡ some j = sym e ∙ e' in absurd (cc)
    | inr f ↦ let here : (v == m) ≡ true = ground (arith, h, f) in (0, rw (e, here) refl)
  ]
]

get_elem?-take :
    (n : ℕ) (vs : List ℕ) (j v : ℕ) → get_elem? (take n vs) j ≡ some v → get_elem? vs j ≡ some v
get_elem?-take zero vs j v h = absurd (cc)
get_elem?-take (suc n) [] j v h = absurd (cc)
get_elem?-take (suc n) (w ∷ vs) zero v h = h
get_elem?-take (suc n) (w ∷ vs) (suc j) v h = get_elem?-take n vs j v h

is_index-eq-true : (i : ℕ) (o : Option ℕ) → is_index i o ≡ true → o ≡ some i
unfolding is_index
is_index-eq-true i none h = absurd (cc)
is_index-eq-true i (some j) h = ap some (sym ((==_iff i j).0 h))

Held-chosen :
    (i m j : ℕ) (hashes : List ℕ) (s : Selection)
    → get_elem? hashes j ≡ some m
    → Held i hashes (record { selected = add m s.selected; prev_min_idx = some (i + j) })
Held-chosen i m j hashes s at x v e g =
    let sum : i + j ≡ i + x = some_inj e in
    let same : x ≡ j = omega (arith, sum) in
    let found : get_elem? hashes j ≡ some v = rw same at g in
    let value : v ≡ m = some_inj (sym found ∙ at) in rw value (add-holds m s.selected)

-- A window that is not empty has a minimum, which is selected when the window has been handled;
-- nothing selected is lost.
select_covers :
    (window i v : ℕ) (vs : List ℕ) (s : Selection)
    → Held i (v ∷ vs) s
    → (m : ℕ) × (next : Selection) × (minimum (take (suc window) (v ∷ vs)) ≡ some m)
      × (select i (take (suc window) (v ∷ vs)) s ≡ ok next)
      × (holds m next.selected ≡ true)
      × Held i (v ∷ vs) next
      × ((w : ℕ) → holds w s.selected ≡ true → holds w next.selected ≡ true)
unfolding select chosen is_index
select_covers window i v vs s held =
    let hashes = take window vs in
    let (m, least, inside) = minimum-some v hashes in
    let (j, last) = rightmost-some m (v ∷ hashes) inside in
    let at = get_elem?-take (suc window) (v ∷ vs) j m (rightmost-eq-some m (v ∷ hashes) j last) in
    elim (Bool-cases (is_index (i + j) s.prev_min_idx)) [
      | inl t ↦ (
        m,
        s,
        least,
        rw (least, last, t) refl,
        held j m (is_index-eq-true (i + j) s.prev_min_idx t) at,
        held,
        λ w h. h,
      )
      | inr f ↦ (
        m,
        record { selected = add m s.selected; prev_min_idx = some (i + j) },
        least,
        rw (least, last, f) refl,
        add-holds m s.selected,
        Held-chosen i m j (v ∷ vs) s at,
        λ w h. add_keeps m w s.selected h,
      )
    ]

-- The minimum of the window at `p` is selected.
abbrev pub Covers : ℕ → List ℕ → List ℕ → ℕ → Type 0
Covers window hashes chosen_hashes p =
    (m : ℕ) × (minimum (take window (drop p hashes)) ≡ some m) × (holds m chosen_hashes ≡ true)

Covers-suc :
    (window n v : ℕ) (vs ws : List ℕ)
    → Covers window (v ∷ vs) ws 0
    → ((p : ℕ) → p < n → Covers window vs ws p)
    → (p : ℕ) → p < suc n
    → Covers window (v ∷ vs) ws p
Covers-suc window n v vs ws first rest zero h = first
Covers-suc window n v vs ws first rest (suc p) h = rest p (omega (arith, h))

-- The loop ends with a selection that holds the minimum of each of its windows.
pub scan-Covers :
    (window n i : ℕ) (hashes : List ℕ) (s : Selection)
    → n + window ≤ length hashes
    → Held i hashes s
    → (next : Selection) × (scan (suc window) n i hashes s ≡ ok next)
      × ((w : ℕ) → holds w s.selected ≡ true → holds w next.selected ≡ true)
      × ((p : ℕ) → p < n → Covers (suc window) hashes next.selected p)
unfolding scan
scan-Covers window zero i hashes s enough held =
    (s, refl, (λ w h. h), (λ p h. absurd (omega (arith, h))))
scan-Covers window (suc n) i [] s enough held = absurd (omega (arith, enough))
scan-Covers window (suc n) i (v ∷ vs) s enough held =
    let (m, one, least, selects, selected, held', keeps) = select_covers window i v vs s held in
    let held'' : Held (suc i) vs one = λ x w e g. held' (suc x) w (e ∙ ap some (omega arith)) g in
    let (next, scans, keeps', covers) =
      scan-Covers window n (suc i) vs one (omega (arith, enough)) held'' in
    (
      next,
      rw (selects, scans) refl,
      (λ w h. keeps' w (keeps w h)),
      Covers-suc (suc window) n v vs next.selected (m, least, keeps' m selected) covers,
    )
