-- ===== src/Policy.antt =====
-- oversight_core/policy.py: the checks of a manifest's policy at open time, and the counter of opens
-- in LOCAL_ONLY mode. The counter's directory is a table from file names to the JSON values of the
-- files, `none` for a file that is no JSON. The lock makes a check and its bump one step; the
-- temporary file is gone when it ends. A refusal is the exception `policy_violation`.
pub mod Admission
pub mod Limit
pub mod Refusal
pub mod Examples
use oversight.Prelude.{
  ℕ, zero, suc, ◌+◌, ◌*◌, ◌-◌, ◌%◌, Bool, true, false, ◌&&◌, ◌||◌, not, Option, none, some, List,
  [], ◌∷◌, ◌++◌, Bytes, beq, codes, ℤ, pos, negsuc, leb_ℤ, suc_ℤ, leb, ◌==◌, if◌then◌else◌,
}
use oversight.Json.{
  is_text, Json, Fields, null, boolean, int, float, str, list, dict, end, field, get, get_or,
  truthy,
}
use oversight.Table.{Table, find_row, put_row, text_eq}
use oversight.Manifest.{Manifest}
use oversight.Result.{
  Exception, value_error, type_error, attribute_error, os_error, policy_violation, Result, ok,
  raised, ◌>>=◌, guard, or_raise,
}

pub record PolicyContext : Type 0 where
  pub jurisdiction : Bytes
  pub has_state_dir : Bool
  pub mode : Bytes

-- The state directory; `full` says that writes to it fail.
pub record Disk : Type 0 where
  pub files : Table Bytes (Option Json)
  pub full : Bool

-- The digits of `int(text)`, each run of digits parted by single underscores. `started` says that
-- the last character was a digit. Digits of other scripts are not read here.
digits : ℕ → Bool → Bytes → Option ℕ
digits n started [] = if started then some n else none
digits n started (c ∷ s) =
    let digit = digits (n * 10 + (c - 48)) true s in
    let parted = digits n false s in
    if leb 48 c && leb c 57 then digit else if c == 95 && started then parted else none

is_blank : ℕ → Bool
is_blank c = c == 32 || (leb 9 c && leb c 13)

drop_blanks : Bytes → Bytes
unfolding is_blank
drop_blanks [] = []
drop_blanks (c ∷ s) = let rest = drop_blanks s in if is_blank c then rest else c ∷ s

trim_blanks : Bytes → Bytes
unfolding is_blank
trim_blanks [] = []
trim_blanks (c ∷ s) = let rest = trim_blanks s in if is_blank c && beq rest [] then [] else c ∷ rest

negate : ℕ → ℤ
negate zero = pos 0
negate (suc n) = negsuc n

signed_digits : Bytes → Option ℤ
unfolding digits negate
signed_digits [] = none
signed_digits (c ∷ s) =
    if c == 45
    then elim (digits 0 false s) [ none ↦ none | some n ↦ some (negate n) ]
    else if c == 43
    then elim (digits 0 false s) [ none ↦ none | some n ↦ some (pos n) ]
    else elim (digits 0 false (c ∷ s)) [ none ↦ none | some n ↦ some (pos n) ]

-- `int(v)`. A float does not come here: a manifest with one has no canonical bytes, and the counter
-- writes none.
unfoldable pub int_of : Json → Result ℤ
unfolding signed_digits drop_blanks trim_blanks
int_of (int n) = ok n
int_of (boolean b) = ok (pos (if b then 1 else 0))
int_of (str text) = or_raise (signed_digits (trim_blanks (drop_blanks text))) value_error
int_of v = raised type_error

-- `manifest.policy or {}`, and the `get` of it
policy_dict : Json → Result Fields
unfolding truthy
policy_dict (dict fs) = ok fs
policy_dict v = if truthy v then raised attribute_error else ok end

unfoldable pub policy_field : Bytes → Manifest → Result Json
unfolding policy_dict get_or
policy_field name m = do fs ← policy_dict m.policy; ok (get_or name null fs)

-- `if na is not None and now > int(na): raise`
not_expired : Json → ℤ → Result (Unit {0})
unfolding int_of
not_expired null now = ok tt
not_expired v now = do limit ← int_of v; guard (leb_ℤ now limit) policy_violation

-- `if nb is not None and now < int(nb): raise`
released : Json → ℤ → Result (Unit {0})
unfolding int_of
released null now = ok tt
released v now = do start ← int_of v; guard (leb_ℤ start now) policy_violation

-- The jurisdiction that the file requires is none, or `GLOBAL`, or the opener's.
in_jurisdiction : Json → Option PolicyContext → Bool
unfolding truthy is_text
in_jurisdiction required none = true
in_jurisdiction required (some ctx) =
    not (truthy required)
    || (is_text (codes "GLOBAL") required || is_text ctx.jurisdiction required)

unfoldable pub check_policy : Manifest → Option PolicyContext → ℤ → Result (Unit {0})
unfolding policy_field not_expired released in_jurisdiction
check_policy m ctx now = do
  na ← policy_field (codes "not_after") m
  before_end ← not_expired na now
  nb ← policy_field (codes "not_before") m
  after_start ← released nb now
  required ← policy_field (codes "jurisdiction") m
  guard (in_jurisdiction required ctx) policy_violation

has_prefix : Bytes → Bytes → Bool
has_prefix [] s = true
has_prefix (c ∷ p) [] = false
has_prefix (c ∷ p) (d ∷ s) = c == d && has_prefix p s

-- `part in text`
occurs : Bytes → Bytes → Bool
unfolding has_prefix
occurs part [] = has_prefix part []
occurs part (c ∷ s) = has_prefix part (c ∷ s) || occurs part s

-- An identifier that is no text is refused here; of a list or a dictionary the source takes the
-- text that Python prints.
unfoldable pub local_counter_path : PolicyContext → Json → Result Bytes
unfolding occurs
local_counter_path ctx (str file_id) = do
  placed ← guard ctx.has_state_dir value_error
  safe ←
      guard
        (not (
          occurs (codes "/") file_id
          || (occurs (codes "\\") file_id || occurs (codes "..") file_id)))
        value_error
  ok (file_id ++ codes ".opens.json")
local_counter_path ctx v = do placed ← guard ctx.has_state_dir value_error; raised type_error

-- The count in a file: one that is missing, no JSON, or without an integer counts as 0; a value
-- without `get` raises an `AttributeError`, which is not caught.
count_in : Option (Option Json) → Result ℤ
unfolding int_of get_or
count_in none = ok (pos 0)
count_in (some none) = ok (pos 0)
count_in (some (some (dict fs))) = elim (int_of (get_or (codes "count") (int (pos 0)) fs)) [
  | ok n ↦ ok n
  | raised e ↦ ok (pos 0)
]
count_in (some (some v)) = raised attribute_error

unfoldable pub local_read_count : Bytes → Disk → Result ℤ
unfolding count_in find_row
local_read_count path disk = count_in (find_row path disk.files)

-- `json.dump({"count": new_count, "last": int(time.time())}, f)`
counter : ℤ → ℤ → Option Json
counter new_count now =
    some (dict (field (codes "count") (int new_count) (field (codes "last") (int now) end)))

-- What follows the reading of the count: the new disk, and the new count or the exception.
bump_from : Result ℤ → Bytes → ℤ → ℤ → Disk → Disk × Result ℤ
unfolding counter put_row
bump_from (raised e) path max_opens now disk = (disk, raised e)
bump_from (ok cur) path max_opens now disk =
    if leb_ℤ max_opens cur
    then (disk, raised policy_violation)
    else if disk.full
    then (disk, raised os_error)
    else (record disk { files = put_row path (counter (suc_ℤ cur) now) disk.files }, ok (suc_ℤ cur))

-- The critical section.
unfoldable pub check_and_bump : Bytes → ℤ → ℤ → Disk → Disk × Result ℤ
unfolding local_read_count bump_from
check_and_bump path max_opens now disk =
    bump_from (local_read_count path disk) path max_opens now disk

unfoldable pub local_check_and_bump : PolicyContext → Json → ℤ → ℤ → Disk → Disk × Result ℤ
unfolding local_counter_path check_and_bump
local_check_and_bump ctx file_id max_opens now disk = elim (local_counter_path ctx file_id) [
  | raised e ↦ (disk, raised e)
  | ok path ↦ check_and_bump path max_opens now disk
]

-- `int(mx)`, and the counter
bump_within : PolicyContext → Json → Json → ℤ → Disk → Disk × Result ℤ
unfolding int_of local_check_and_bump
bump_within ctx file_id mx now disk = elim (int_of mx) [
  | raised e ↦ (disk, raised e)
  | ok max_opens ↦ local_check_and_bump ctx file_id max_opens now disk
]

-- What `mode` does with a limit that is given.
open_limited : PolicyContext → Json → Json → ℤ → Disk → Disk × Result ℤ
unfolding bump_within
open_limited ctx file_id mx now disk =
    if beq ctx.mode (codes "LOCAL_ONLY")
    then bump_within ctx file_id mx now disk
    else if beq ctx.mode (codes "REGISTRY") || beq ctx.mode (codes "HYBRID")
    then (disk, raised policy_violation)
    else (disk, raised value_error)

open_in_mode : PolicyContext → Json → Json → ℤ → Disk → Disk × Result ℤ
unfolding open_limited
open_in_mode ctx file_id null now disk = (disk, ok (pos 0))
open_in_mode ctx file_id mx now disk = open_limited ctx file_id mx now disk

unfoldable pub record_open : Manifest → Option PolicyContext → ℤ → Disk → Disk × Result ℤ
unfolding policy_field open_in_mode
record_open m none now disk = (disk, ok (pos 0))
record_open m (some ctx) now disk = elim (policy_field (codes "max_opens") m) [
  | raised e ↦ (disk, raised e)
  | ok mx ↦ open_in_mode ctx m.file_id mx now disk
]
