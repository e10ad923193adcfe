-- ===== src/Policy/Refusal.antt =====
-- `record_open` of oversight_core/policy.py where it raises.
use oversight.Prelude.{
  ◌≡◌, refl, Option, none, some, Bytes, beq, codes, ℤ, leb_ℤ, Bool-cases, inl, inr, ◌||◌,
}
use oversight.Json.{Json, null}
use oversight.Manifest.{Manifest}
use oversight.Result.{Exception, Result, ok, raised, Result-cases}
use oversight.Policy.{
  PolicyContext, Disk, int_of, bump_from, check_and_bump, local_read_count, local_counter_path,
  local_check_and_bump, bump_within, open_limited, open_in_mode, policy_field, record_open,
}

-- A step on the disk that changes nothing where it raises.
abbrev Harmless : Disk → Disk × Result ℤ → Type 0
Harmless disk step = (e : Exception) → step.1 ≡ raised e → step.0 ≡ disk

bump_from-Harmless :
    (cur : Result ℤ) (path : Bytes) (max_opens now : ℤ) (disk : Disk)
    → Harmless disk (bump_from cur path max_opens now disk)
unfolding bump_from
bump_from-Harmless (raised e') path max_opens now disk = λ e h. refl
bump_from-Harmless (ok cur) path max_opens now disk = elim (Bool-cases (leb_ℤ max_opens cur)) [
  | inl t ↦ rw t (λ e h. refl)
  | inr f ↦ rw f (elim (Bool-cases disk.full) [
    | inl t ↦ rw t (λ e h. refl)
    | inr f' ↦ rw f' (λ e h. absurd (cc))
  ])
]

local_check_and_bump-Harmless :
    (ctx : PolicyContext) (file_id : Json) (max_opens now : ℤ) (disk : Disk)
    → Harmless disk (local_check_and_bump ctx file_id max_opens now disk)
unfolding local_check_and_bump check_and_bump
local_check_and_bump-Harmless ctx file_id max_opens now disk =
    elim (Result-cases (local_counter_path ctx file_id)) [
      | inr (e', q) ↦ rw (q, local_check_and_bump) (λ e h. refl)
      | inl (n, q) ↦
          rw (q, local_check_and_bump)
            (bump_from-Harmless (local_read_count n disk) n max_opens now disk)
    ]

bump_within-Harmless :
    (ctx : PolicyContext) (file_id mx : Json) (now : ℤ) (disk : Disk)
    → Harmless disk (bump_within ctx file_id mx now disk)
unfolding bump_within
bump_within-Harmless ctx file_id mx now disk = elim (Result-cases (int_of mx)) [
  | inr (e', q) ↦ rw (q, bump_within) (λ e h. refl)
  | inl (n, q) ↦ rw (q, bump_within) (local_check_and_bump-Harmless ctx file_id n now disk)
]

open_limited-Harmless :
    (ctx : PolicyContext) (file_id mx : Json) (now : ℤ) (disk : Disk)
    → Harmless disk (open_limited ctx file_id mx now disk)
unfolding open_limited
open_limited-Harmless ctx file_id mx now disk =
    elim (Bool-cases (beq ctx.mode (codes "LOCAL_ONLY"))) [
      | inl t ↦ rw t (bump_within-Harmless ctx file_id mx now disk)
      | inr f ↦
          rw f
            (elim (Bool-cases (beq ctx.mode (codes "REGISTRY") || beq ctx.mode (codes "HYBRID"))) [
              | inl t ↦ rw t (λ e h. refl)
              | inr f' ↦ rw f' (λ e h. refl)
            ])
    ]

open_in_mode-Harmless :
    (ctx : PolicyContext) (file_id mx : Json) (now : ℤ) (disk : Disk)
    → Harmless disk (open_in_mode ctx file_id mx now disk)
unfolding open_in_mode
open_in_mode-Harmless ctx file_id null now disk = λ e h. refl
open_in_mode-Harmless ctx file_id mx now disk = open_limited-Harmless ctx file_id mx now disk

-- `record_open` writes nothing where it raises.
pub record_open-raised :
    (m : Manifest) (ctx : Option PolicyContext) (now : ℤ) (disk : Disk)
    → Harmless disk (record_open m ctx now disk)
unfolding record_open
record_open-raised m none now disk = λ e h. refl
record_open-raised m (some ctx) now disk =
    elim (Result-cases (policy_field (codes "max_opens") m)) [
      | inr (e', q) ↦ rw (q, record_open) (λ e h. refl)
      | inl (n, q) ↦ rw (q, record_open) (open_in_mode-Harmless ctx m.file_id n now disk)
    ]
