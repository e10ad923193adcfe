-- ===== src/Policy/Limit.antt =====
-- The limit on opens, over any sequence of attempts.
use oversight.Prelude.{
  ℕ, suc, ◌+◌, ◌-◌, ◌≤◌, ◌<◌, ◌≡◌, inl, inr, refl, ap, ◌∙◌, Bool, true, false, Option, none, some,
  List, [], ◌∷◌, Bytes, beq, beq_self, beq_iff, ℤ, pos, leb_ℤ, suc_ℤ, leb, ltb, ltb→lt, length, min,
  arith, Bool-cases, if◌then◌else◌,
}
use oversight.Json.{Json, get, get_or, int, truthy}
use oversight.Manifest.{Recipient}
use oversight.Manifest.Parser.{new}
use oversight.Table.{put_row, text_eq}
use oversight.Table.Laws.{find_row-put_row}
use oversight.Result.{Result, ok, raised}
use oversight.Policy.{
  PolicyContext, Disk, record_open, policy_field, check_and_bump, bump_from, local_read_count,
  count_in, counter, int_of,
}

-- An attempt to open the file with this counter: the limit, the time, and whether the disk is full.
pub record Attempt : Type 0 where
  pub path : Bytes
  pub max_opens : ℤ
  pub time : ℤ
  pub full : Bool

attempt : Attempt → Disk → Disk × Result ℤ
unfolding check_and_bump
attempt a disk = check_and_bump a.path a.max_opens a.time (record disk { full = a.full })

abbrev succeeded : Result ℤ → ℕ
succeeded (ok n) = 1
succeeded (raised e) = 0

-- How many of the attempts at the counter `path` succeed.
unfoldable pub opens : Bytes → List Attempt → Disk → ℕ
unfolding attempt
opens path [] disk = 0
opens path (a ∷ attempts) disk =
    let (after, result) = attempt a disk in
    (if beq a.path path then succeeded result else 0) + opens path attempts after

count_in-counter : (n now : ℤ) → count_in (some (counter n now)) ≡ ok n
unfolding count_in counter int_of get_or get
count_in-counter n now = refl

local_read_count-bumped :
    (path other : Bytes) (n now : ℤ) (disk : Disk)
    → local_read_count other (record disk { files = put_row path (counter n now) disk.files })
      ≡ (if beq path other then ok n else local_read_count other disk)
unfolding local_read_count
local_read_count-bumped path other n now disk =
    ap count_in (find_row-put_row path other (counter n now) disk.files)
    ∙ elim (Bool-cases (beq path other)) [
      | inl e ↦ rw e (count_in-counter n now)
      | inr e ↦ rw e refl
    ]

-- Whether the disk is full does not change what is read.
local_read_count-on_disk :
    (path : Bytes) (a : Attempt) (disk : Disk)
    → local_read_count path (record disk { full = a.full }) ≡ local_read_count path disk
unfolding local_read_count
local_read_count-on_disk path a disk = refl

-- An attempt at another counter leaves this one as it is.
bump_from-other :
    (path other : Bytes) (count : ℤ) (r : Result ℤ) (max_opens now : ℤ) (disk : Disk)
    → local_read_count path disk ≡ ok count
    → beq other path ≡ false
    → local_read_count path (bump_from r other max_opens now disk).0 ≡ ok count
unfolding bump_from local_read_count
bump_from-other path other count (raised e) max_opens now disk h apart = h
bump_from-other path other count (ok cur) max_opens now disk h apart =
    elim (Bool-cases (leb_ℤ max_opens cur)) [
      | inl e ↦ rw e h
      | inr e ↦ elim (Bool-cases disk.full) [
        | inl f ↦ rw (e, f) h
        | inr f ↦ rw (e, f) (local_read_count-bumped other path (suc_ℤ cur) now disk ∙ rw apart h)
      ]
    ]

-- An attempt at this counter: what it adds, and that it adds nothing at the limit.
bump_from-here :
    (path : Bytes) (limit c : ℕ) (now : ℤ) (disk : Disk)
    → local_read_count path disk ≡ ok (pos c)
    → let after = bump_from (ok (pos c)) path (pos limit) now disk in
      (count : ℕ) × (local_read_count path after.0 ≡ ok (pos count))
      × (count ≡ succeeded after.1 + c)
      × (succeeded after.1 ≤ limit - c)
      × (disk.full ≡ false → c < limit → succeeded after.1 ≡ 1)
unfolding bump_from local_read_count
bump_from-here path limit c now disk h = elim (Bool-cases (leb limit c)) [
  | inl e ↦
      (c, rw e h, rw e (omega arith), rw e (omega arith), λ f lt. absurd (ground (arith, e, lt)))
  | inr e ↦ elim (Bool-cases disk.full) [
    | inl f ↦
        (c, rw (e, f) h, rw (e, f) (omega arith), rw (e, f) (omega arith), λ g lt. absurd (cc))
    | inr f ↦ (
      suc c,
      rw (e, f)
          (local_read_count-bumped path path (pos (suc c)) now disk ∙ rw (beq_self path) refl),
      rw (e, f) (omega arith),
      rw (e, f) (ground (arith, e)),
      λ g lt. rw (e, f) refl,
    )
  ]
]

-- Every attempt at the counter is under one limit.
abbrev pub Limited : Bytes → ℕ → List Attempt → Type 0
Limited path limit [] = Unit {0}
Limited path limit (a ∷ attempts) =
    (beq a.path path ≡ true → a.max_opens ≡ pos limit) × Limited path limit attempts

abbrev on_disk : Attempt → Disk → Disk
on_disk a disk = record disk { full = a.full }

attempt-here :
    (path : Bytes) (limit c : ℕ) (a : Attempt) (disk : Disk)
    → beq a.path path ≡ true
    → a.max_opens ≡ pos limit
    → local_read_count path disk ≡ ok (pos c)
    → attempt a disk ≡ bump_from (ok (pos c)) path (pos limit) a.time (on_disk a disk)
unfolding attempt check_and_bump
attempt-here path limit c a disk at same h =
    let here : a.path ≡ path = (beq_iff a.path path).0 at in
    let read : local_read_count a.path (on_disk a disk) ≡ ok (pos c) =
      ap (λ p. local_read_count p (on_disk a disk)) here
      ∙ local_read_count-on_disk path a disk
      ∙ h in
    ap (λ r. bump_from r a.path a.max_opens a.time (on_disk a disk)) read
    ∙ ap (λ p. bump_from (ok (pos c)) p a.max_opens a.time (on_disk a disk)) here
    ∙ ap (λ m. bump_from (ok (pos c)) path m a.time (on_disk a disk)) same

attempt-other :
    (path : Bytes) (c : ℤ) (a : Attempt) (disk : Disk)
    → beq a.path path ≡ false
    → local_read_count path disk ≡ ok c
    → local_read_count path (attempt a disk).0 ≡ ok c
unfolding attempt check_and_bump
attempt-other path c a disk apart h =
    bump_from-other path a.path c (local_read_count a.path (on_disk a disk)) a.max_opens a.time
      (on_disk a disk) (local_read_count-on_disk path a disk ∙ h) apart

-- Over any sequence of attempts, of which those at one counter have one limit, at any times, with
-- other counters between them and writes that fail, the counter grants at most the opens that are
-- left below the limit, whatever count it starts from.
pub opens-le :
    (path : Bytes) (limit c : ℕ) (attempts : List Attempt) (disk : Disk)
    → Limited path limit attempts
    → local_read_count path disk ≡ ok (pos c)
    → opens path attempts disk ≤ limit - c
unfolding opens
opens-le path limit c [] disk l h = omega arith
opens-le path limit c (a ∷ attempts) disk (same, l) h = elim (Bool-cases (beq a.path path)) [
  | inr apart ↦
      let kept = attempt-other path (pos c) a disk apart h in
      rw apart (omega (arith, opens-le path limit c attempts (attempt a disk).0 l kept))
  | inl at ↦
      let e = attempt-here path limit c a disk at (same at) h in
      let (count, read, counted, within, _) =
        bump_from-here path limit c a.time (on_disk a disk)
          (local_read_count-on_disk path a disk ∙ h) in
      let rest =
        opens-le path limit count attempts
          (bump_from (ok (pos c)) path (pos limit) a.time (on_disk a disk)).0 l read in
      rw (at, e) (omega (arith, rest, counted, within))
]

-- Attempts at one counter, all under its limit, on a disk with room.
abbrev pub Plain : Bytes → ℕ → List Attempt → Type 0
Plain path limit [] = Unit {0}
Plain path limit (a ∷ attempts) =
    ((beq a.path path ≡ true) × (a.max_opens ≡ pos limit) × (a.full ≡ false))
    × Plain path limit attempts

-- Where every attempt is at one counter under one limit and the disk has room, as many opens are
-- granted as there are attempts, or as are left below the limit where those are fewer.
pub opens-Plain :
    (path : Bytes) (limit c : ℕ) (attempts : List Attempt) (disk : Disk)
    → Plain path limit attempts
    → local_read_count path disk ≡ ok (pos c)
    → opens path attempts disk ≡ min (length attempts) (limit - c)
unfolding opens
opens-Plain path limit c [] disk l h = omega arith
opens-Plain path limit c (a ∷ attempts) disk ((at, same, room), l) h =
    let e = attempt-here path limit c a disk at same h in
    let (count, read, counted, within, grants) =
      bump_from-here path limit c a.time (on_disk a disk)
        (local_read_count-on_disk path a disk ∙ h) in
    let rest =
      opens-Plain path limit count attempts
        (bump_from (ok (pos c)) path (pos limit) a.time (on_disk a disk)).0 l read in
    rw (at, e)
      (elim (Bool-cases (ltb c limit)) [
        | inl lt ↦ omega (arith, rest, counted, grants room (ltb→lt c limit lt))
        | inr ge ↦
            let out : limit ≤ c = ground (arith, ge) in omega (arith, rest, counted, within, out)
      ])

-- A manifest that `new` makes with a limit of no opens at all has no limit: every open in every
-- context counts as the first, and nothing is written.
record_open-new :
    (file_id issued_at name content_hash size issuer_id issuer_pub : Json) (recipient : Recipient)
    (registry_url content_type : Json) (not_after : Option Json) (jurisdiction : Json)
    (ctx : Option PolicyContext) (now : ℤ) (disk : Disk)
    → record_open
        (new file_id issued_at name content_hash size issuer_id issuer_pub recipient registry_url
          content_type not_after
          (some (int (pos 0)))
          jurisdiction)
        ctx
        now
        disk
      ≡ (disk, ok (pos 0))
unfolding record_open new policy_field get_or get truthy
record_open-new file_id issued_at name content_hash size issuer_id issuer_pub recipient registry_url
      content_type not_after jurisdiction none now disk =
    refl
record_open-new file_id issued_at name content_hash size issuer_id issuer_pub recipient registry_url
      content_type none jurisdiction (some ctx) now disk =
    refl
record_open-new file_id issued_at name content_hash size issuer_id issuer_pub recipient registry_url
      content_type (some limit) jurisdiction (some ctx) now disk =
    elim (Bool-cases (truthy limit)) [ inl e ↦ rw e refl | inr e ↦ rw e refl ]
