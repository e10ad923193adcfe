-- ===== src/Registry.antt =====
-- registry/server.py: the rows of the database, the server's state, replies, and the columns that a
-- JSON value is bound to. The clocks are values of the request. A reply `crashed` stands for an
-- exception that no handler expects; the framework answers it with status 500.
pub mod Attribute
pub mod Access
pub mod Register
pub mod Store
pub mod Events
pub mod Issuers
pub mod Anchors
pub mod Signature
pub mod Reads
pub mod Proofs
pub mod ProofExamples
pub mod SignatureExamples
pub mod AttributionExamples
pub mod Effects
pub mod Receipts
pub mod Answers
pub mod Attribution
pub mod Examples
use oversight.Prelude.{
  ℕ, ◌^◌, ℤ, pos, negsuc, Bool, true, false, ◌≡◌, ◌⊎◌, inl, inr, refl, arith, Option, none, some,
  List, Bytes, codes, ltb, String, if◌then◌else◌,
}
use oversight.Json.{Json, Fields, null, boolean, int, float, str, list, dict, get}
use oversight.Jcs.{decimal}
use oversight.Table.{Table}
use oversight.RateLimit.{TokenBucket}
use oversight.Tlog.{TransparencyLog}

pub record ManifestRow : Type 0 where
  pub recipient_id : Bytes
  pub issuer_id : Bytes
  pub issuer_ed25519_pub : Bytes
  pub manifest_json : Fields
  pub registered_at : ℕ

pub record BeaconRow : Type 0 where
  pub file_id : Bytes
  pub recipient_id : Bytes
  pub issuer_id : Bytes
  pub kind : Bytes
  pub registered_at : ℕ

pub record WatermarkRow : Type 0 where
  pub file_id : Bytes
  pub recipient_id : Bytes
  pub issuer_id : Bytes
  pub registered_at : ℕ

pub record EventRow : Type 0 where
  pub token_id : Bytes
  pub file_id : Option Bytes
  pub recipient_id : Option Bytes
  pub issuer_id : Option Bytes
  pub kind : Bytes
  pub source_ip : Option Bytes
  pub user_agent : Bytes
  pub extra : Json
  pub timestamp : ℕ
  pub qualified_timestamp : Bytes
  pub tlog_index : ℕ

-- Tables by primary key. A row of `corpus` is its key and the time; its metadata is always null.
pub record Database : Type 0 where
  pub manifests : Table Bytes ManifestRow
  pub beacons : Table Bytes BeaconRow
  pub watermarks : Table (Bytes × Bytes) WatermarkRow
  pub corpus : Table (Bytes × Bytes × Bytes) ℕ
  pub events : List EventRow

pub record Server : Type 0 where
  pub database : Database
  pub tlog : TransparencyLog
  pub bucket : TokenBucket

-- What a handler reads of a request: headers by lower-case name, the peer, the monotonic clock, the
-- time in seconds, and the time as `timestamp_stub` writes it.
pub record Request : Type 0 where
  pub headers : Bytes → Option Bytes
  pub client_host : Option Bytes
  pub monotonic : ℕ
  pub time : ℕ
  pub stamp : Bytes

-- What the service takes from elsewhere: a hash and a decoder for the log, the check of a
-- signature, `str()`; and the settings of the process.
pub record Setup : Type 0 where
  pub sha256 : Bytes → Bytes
  pub decode_replace : Bytes → Bytes
  pub verify_manifest_signature : Fields → Option (Bool × Bytes)
  pub text_of_value : Json → Bytes
  pub is_loopback : Bytes → Option Bool
  pub operator_token : Bytes
  pub dns_event_secret : Bytes
  pub trusted_proxy : Bool

pub data Reply (A : Type 0) : Type 0 where
  ok : A → Reply A
  refused : ℕ → Bytes → Reply A
  crashed : Reply A

infixl 5 ◌>>=◌
abbrev pub ◌>>=◌ : {A B : Type 0} → Reply A → (A → Reply B) → Reply B
ok a >>= f = f a
refused status message >>= f = refused status message
crashed >>= f = crashed

pub Reply-cases :
    {A : Type 0} (r : Reply A)
    → ((a : A) × (r ≡ ok a))
      ⊎ ((r ≡ crashed) ⊎ ((status : ℕ) × (message : Bytes) × (r ≡ refused status message)))
Reply-cases (ok a) = inl (a, refl)
Reply-cases crashed = inr (inl refl)
Reply-cases (refused status message) = inr (inr (status, message, refl))

pub >>=-eq-ok :
    {A B : Type 0} (r : Reply A) (f : A → Reply B) {b : B}
    → (r >>= f) ≡ ok b
    → (a : A) × (r ≡ ok a) × (f a ≡ ok b)
>>=-eq-ok (ok a) f h = (a, refl, h)
>>=-eq-ok (refused status message) f h = absurd (cc)
>>=-eq-ok crashed f h = absurd (cc)

-- A step that raises where it has no result.
abbrev pub or_crash : {A : Type 0} → Option A → Reply A
or_crash none = crashed
or_crash (some a) = ok a

abbrev pub require : Bool → ℕ → String → Reply Bool
require true status message = ok true
require false status message = refused status (codes message)

pub or_crash-eq-ok : {A : Type 0} (o : Option A) {a : A} → or_crash o ≡ ok a → o ≡ some a
or_crash-eq-ok none h = absurd (cc)
or_crash-eq-ok (some x) h = ground (arith, h)

pub require-eq-ok :
    (b : Bool) (status : ℕ) (message : String) {c : Bool}
    → require b status message ≡ ok c
    → b ≡ true
require-eq-ok true status message h = refl
require-eq-ok false status message h = absurd (cc)

-- What follows runs only where the check before it passed.
unfoldable pub gate : {A : Type 0} → Server → Reply Bool → Server × Reply A → Server × Reply A
gate server (ok _) next = next
gate server (refused status message) next = (server, refused status message)
gate server crashed next = (server, crashed)

-- The value of a TEXT column that a parameter is bound to: an inner `none` is NULL. A list and a
-- dictionary cannot be bound, nor an integer of more than 64 bits. A float does not come here, since
-- a manifest with one has no canonical form.
unfoldable pub column : Json → Option (Option Bytes)
unfolding decimal
column null = some none
column (boolean b) = some (some (if b then codes "1" else codes "0"))
column (int (pos n)) = if ltb n (2 ^ 63) then some (some (decimal (pos n))) else none
column (int (negsuc n)) = if ltb n (2 ^ 63) then some (some (decimal (negsuc n))) else none
column (float text) = none
column (str text) = some (some text)
column (list vs) = none
column (dict fs) = none

-- A column that is NOT NULL.
unfoldable pub not_null : Json → Reply Bytes
unfolding column
not_null v = elim (column v) [ none ↦ crashed | some none ↦ crashed | some (some text) ↦ ok text ]

-- `item[name]`
unfoldable pub subscript : Bytes → Json → Reply Json
unfolding get
subscript name (dict fs) = or_crash (get name fs)
subscript name _ = crashed
