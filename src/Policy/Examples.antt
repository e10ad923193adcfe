-- ===== src/Policy/Examples.antt =====
-- Three attempts at a counter of two opens, and instances of the theorems.
use oversight.Prelude.{
  ◌≡◌, ◌≤◌, ◌-◌, ◌↔◌, ◌⊎◌, refl, true, false, none, some, [], ◌∷◌, Bytes, codes, ℤ, pos, length,
  min,
}
use oversight.Json.{Fields, null, int, str, dict, end, field, get}
use oversight.Manifest.{Manifest, Recipient}
use oversight.Manifest.Parser.{new}
use oversight.Result.{ok, raised, value_error}
use oversight.Policy.{
  PolicyContext, Disk, local_read_count, check_policy, local_counter_path, int_of,
}
use oversight.Policy.Admission.{NotAfter, NotBefore, check_policy_iff}
use oversight.Policy.Limit.{Attempt, opens, opens-le, opens-Plain}

abbrev path : Bytes
path = codes "f1.opens.json"

abbrev try_open : Bytes → Attempt
try_open at = record { path = at; max_opens = pos 2; time = pos 5; full = false }

abbrev empty_disk : Disk
empty_disk = record { files = []; full = false }

unread : local_read_count path empty_disk ≡ ok (pos 0)
unfolding local_read_count
unread = refl

opens-le_example :
    opens path
      (try_open path ∷ try_open (codes "g.opens.json") ∷ try_open path ∷ try_open path ∷ [])
      empty_disk
    ≤ 2 - 0
opens-le_example =
    opens-le path 2 0
      (try_open path ∷ try_open (codes "g.opens.json") ∷ try_open path ∷ try_open path ∷ [])
      empty_disk (λ h. refl, (λ h. refl, (λ h. refl, (λ h. refl, tt)))) unread

opens-Plain_example :
    opens path (try_open path ∷ try_open path ∷ try_open path ∷ []) empty_disk
    ≡ min (length (try_open path ∷ try_open path ∷ try_open path ∷ [])) (2 - 0)
opens-Plain_example =
    opens-Plain path 2 0 (try_open path ∷ try_open path ∷ try_open path ∷ []) empty_disk
      ((refl, refl, refl), ((refl, refl, refl), ((refl, refl, refl), tt))) unread

abbrev bob : Recipient
bob = record {
  recipient_id = str (codes "bob");
  x25519_pub = str (codes "00");
  ed25519_pub = null;
  p256_pub = null;
}

abbrev limited : Manifest
limited =
    new (str (codes "f1")) (int (pos 1)) (str []) (str []) (int (pos 0)) (str []) (str []) bob
      (str (codes "r")) (str []) (some (int (pos 9))) (some (int (pos 0))) (str (codes "EU"))

abbrev european : PolicyContext
european = record { jurisdiction = codes "EU"; has_state_dir = true; mode = codes "LOCAL_ONLY" }

abbrev policy : Fields
policy =
    field (codes "registry_url") (str (codes "r")) (
      field (codes "jurisdiction") (str (codes "EU")) (field (codes "not_after") (int (pos 9)) end))

policy_of_limited : limited.policy ≡ dict policy
unfolding new
policy_of_limited = refl

expires : get (codes "not_after") policy ≡ some (int (pos 9))
unfolding get
expires = refl

starts : get (codes "not_before") policy ≡ none
unfolding get
starts = refl

placed : get (codes "jurisdiction") policy ≡ some (str (codes "EU"))
unfolding get
placed = refl

check_policy_iff_example : (check_policy limited (some european) (pos 5) ≡ ok tt) ↔ (
    NotAfter (some (pos 9)) (pos 5)
    × NotBefore none (pos 5)
    × ((codes "EU" ≡ []) ⊎ ((codes "EU" ≡ codes "GLOBAL") ⊎ (codes "EU" ≡ codes "EU"))))
check_policy_iff_example =
    check_policy_iff limited policy european (pos 5) (some (pos 9)) none (codes "EU")
      policy_of_limited expires starts placed

escapes : local_counter_path european (str (codes "../x")) ≡ raised value_error
unfolding local_counter_path
escapes = refl

reads_text : int_of (str (codes " -1_000 ")) ≡ ok (ℤ.negsuc 999)
unfolding int_of
reads_text = refl
