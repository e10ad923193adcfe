-- ===== src/Registry/Effects.antt =====
-- What `register` does to the server, on every path.
use oversight.Prelude.{
  ℕ, Bool, ◌≡◌, ◌⊎◌, inl, inr, refl, sym, ap, ◌∙◌, some, Bytes, arith, length, Option-cases,
}
use oversight.RateLimit.{TokenBucket}
use oversight.Tlog.{append}
use oversight.Registry.{
  Database, Server, Setup, Request, Reply, ok, refused, crashed, gate, >>=-eq-ok,
}
use oversight.Registry.Access.{require_operator_auth, rate_limit}
use oversight.Registry.Register.{Registration, Admitted, admit}
use oversight.Registry.Store.{
  store, register, checked, proceed, log_registration, register_leaf, Receipt,
}

-- The server with another state of its limiter.
unfoldable pub with_bucket : Server → TokenBucket → Server
with_bucket server bucket = record server { bucket = bucket }

abbrev pub with_database : Server → Database → Server
with_database server db = record server { database = db }

-- The two ways of `register`: it raises and leaves what it found but for the limiter, or the
-- transaction is committed and the leaf is written.
pub data Outcome (setup : Setup) (req : Registration) (request : Request) (server : Server)
    (out : Server × Reply Receipt) : Type 0 where
  raised :
      (bucket : TokenBucket) (reply : Reply Receipt)
      → out ≡ (with_bucket server bucket, reply)
      → ((r : Receipt) → ¬ (reply ≡ ok r))
      → Outcome setup req request server out
  committed :
      (bucket : TokenBucket) (a : Admitted) (db : Database) (allowed granted : Bool)
      → require_operator_auth setup.operator_token request ≡ ok allowed
      → (rate_limit setup.trusted_proxy server request).1 ≡ ok granted
      → admit setup.verify_manifest_signature req ≡ ok a
      → store setup.text_of_value req a request.time server.database ≡ ok db
      → out ≡ log_registration setup request a (with_database (with_bucket server bucket) db)
      → Outcome setup req request server out

gate-Outcome :
    {setup : Setup} {req : Registration} {request : Request} {server : Server}
    {next : Server × Reply Receipt} (r : Reply Bool)
    → ((b : Bool) → r ≡ ok b → Outcome setup req request server next)
    → Outcome setup req request server (gate server r next)
unfolding gate with_bucket
gate-Outcome (ok b) o = o b refl
gate-Outcome {server = server} (refused status message) o =
    raised server.bucket (refused status message) refl (λ r h. cc)
gate-Outcome {server = server} crashed o = raised server.bucket crashed refl (λ r h. cc)

proceed-Outcome :
    (setup : Setup) (req : Registration) (request : Request) (server : Server)
    (bucket : TokenBucket) (granted : Reply Bool) (r : Reply (Admitted × Database)) (allowed : Bool)
    → require_operator_auth setup.operator_token request ≡ ok allowed
    → (rate_limit setup.trusted_proxy server request).1 ≡ granted
    → checked setup req request (with_bucket server bucket) granted ≡ r
    → Outcome setup req request server (proceed setup request (with_bucket server bucket) r)
unfolding proceed with_bucket checked
proceed-Outcome setup req request server bucket granted (refused status message) allowed operator
      charge h =
    raised bucket (refused status message) refl (λ r e. cc)
proceed-Outcome setup req request server bucket granted crashed allowed operator charge h =
    raised bucket crashed refl (λ r e. cc)
proceed-Outcome setup req request server bucket granted (ok (a, db)) allowed operator charge h =
    let (b, passed, h1) = >>=-eq-ok granted _ h in
    let (a', admitted, h2) = >>=-eq-ok (admit setup.verify_manifest_signature req) _ h1 in
    let (db', stored, h3) =
      >>=-eq-ok (store setup.text_of_value req a' request.time server.database) _ h2 in
    let same : a' ≡ a = cc in
    let same_db : db' ≡ db = cc in
    let admitted' : admit setup.verify_manifest_signature req ≡ ok a = admitted ∙ ap ok same in
    let stored' : store setup.text_of_value req a request.time server.database ≡ ok db =
      ap (λ x. store setup.text_of_value req x request.time server.database) (sym same)
      ∙ stored
      ∙ ap ok same_db in
    committed bucket a db allowed b operator (charge ∙ passed) admitted' stored' refl

pub register-Outcome :
    (setup : Setup) (req : Registration) (request : Request) (server : Server)
    → Outcome setup req request server (register setup req request server)
unfolding register with_bucket rate_limit
register-Outcome setup req request server =
    gate-Outcome (require_operator_auth setup.operator_token request) (λ allowed operator.
      proceed-Outcome setup req request server _ _ _ allowed operator refl refl)

-- What the append after the commit does.
pub log_registration_database :
    (setup : Setup) (request : Request) (a : Admitted) (server : Server)
    → (log_registration setup request a server).0.database ≡ server.database
unfolding log_registration
log_registration_database setup request a server =
    elim (Option-cases
      (append setup.sha256 setup.decode_replace (register_leaf a request.stamp) server.tlog)) [
        | inl e ↦ ground (arith, e)
        | inr ((tlog, index), e) ↦ ground (arith, e)
      ]

pub log_registration_reply :
    (setup : Setup) (request : Request) (a : Admitted) (server : Server)
    → let out = log_registration setup request a server in
      (out.1 ≡ crashed)
      ⊎ ((index : ℕ) × (append setup.sha256 setup.decode_replace
              (register_leaf a request.stamp)
              server.tlog
            ≡ some (out.0.tlog, index))
          × (out.1
              ≡ ok (record {
                file_id = a.file_id;
                registered_beacons = length a.signed_beacons;
                tlog_index = index;
              })))
unfolding log_registration
log_registration_reply setup request a server =
    elim (Option-cases
      (append setup.sha256 setup.decode_replace (register_leaf a request.stamp) server.tlog)) [
        | inl e ↦ inl (ground (arith, e))
        | inr ((tlog, index), e) ↦ inr (index, ground (arith, e), ground (arith, e))
      ]

Outcome-refused :
    {setup : Setup} {req : Registration} {request : Request} {server : Server}
    {out : Server × Reply Receipt} (status : ℕ) (message : Bytes)
    → Outcome setup req request server out
    → out.1 ≡ refused status message
    → (out.0.database ≡ server.database) × (out.0.tlog ≡ server.tlog)
unfolding with_bucket
Outcome-refused status message (raised bucket reply e _) h = (
  ap (λ (o : Server × Reply Receipt). o.0.database) e,
  ap (λ (o : Server × Reply Receipt). o.0.tlog) e,
)
Outcome-refused {setup = setup} {request = request} {server = server} status message
      (committed bucket a db _ _ _ _ _ _ e) h =
    let reply =
      log_registration_reply setup request a (with_database (with_bucket server bucket) db) in
    let same = ap (λ (o : Server × Reply Receipt). o.1) e in
    elim reply [ inl c ↦ absurd (cc) | inr (index, _, o) ↦ absurd (cc) ]

-- A registration that is answered with a refusal, for whatever reason, leaves the database and the
-- transparency log as they were.
pub register-refused :
    (setup : Setup) (req : Registration) (request : Request) (server : Server) (status : ℕ)
    (message : Bytes)
    → (register setup req request server).1 ≡ refused status message
    → ((register setup req request server).0.database ≡ server.database)
      × ((register setup req request server).0.tlog ≡ server.tlog)
register-refused setup req request server status message h =
    Outcome-refused status message (register-Outcome setup req request server) h
