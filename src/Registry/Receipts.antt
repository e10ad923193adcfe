-- ===== src/Registry/Receipts.antt =====
-- What an answered registration says: its leaf and its rows.
use oversight.Prelude.{
  ℕ, Bool, ◌≡◌, inl, inr, refl, sym, ap, ◌∙◌, some, [], ◌∷◌, ◌++◌, Bytes, >>=-eq-some, length,
}
use oversight.Json.{Json}
use oversight.Jcs.{jcs_dumps}
use oversight.Tlog.{TransparencyLog, append, append_bytes, size}
use oversight.Registry.{Server, Setup, Request, Reply, ok}
use oversight.Registry.Access.{require_operator_auth, rate_limit}
use oversight.Registry.Register.{Registration, Admitted, admit}
use oversight.Registry.Store.{store, register, log_registration, register_leaf, Receipt}
use oversight.Registry.Effects.{
  raised, committed, register-Outcome, with_bucket, with_database, log_registration_reply,
  log_registration_database,
}

pub append-eq-some :
    (sha256 decode_replace : Bytes → Bytes) (leaf : Json) (log after : TransparencyLog) (index : ℕ)
    → append sha256 decode_replace leaf log ≡ some (after, index)
    → (bs : Bytes) × (jcs_dumps leaf ≡ some bs)
      × (after.leaves ≡ log.leaves ++ sha256 (0 ∷ bs) ∷ [])
      × (index ≡ size log)
unfolding append append_bytes size
append-eq-some sha256 decode_replace leaf log after index h =
    let (bs, dumped, h') = >>=-eq-some (jcs_dumps leaf) _ h in (bs, dumped, cc, cc)

-- What stands in the log and in the database behind a receipt.
pub record IsReceipt (setup : Setup) (req : Registration) (request : Request)
    (server after : Server) (r : Receipt) : Type 0 where
  pub allowed : Bool
  pub granted : Bool
  pub admitted : Admitted
  pub leaf : Bytes
  pub operator : require_operator_auth setup.operator_token request ≡ ok allowed
  pub in_rate : (rate_limit setup.trusted_proxy server request).1 ≡ ok granted
  pub passed : admit setup.verify_manifest_signature req ≡ ok admitted
  pub stored :
      store setup.text_of_value req admitted request.time server.database ≡ ok after.database
  pub written : jcs_dumps (register_leaf admitted request.stamp) ≡ some leaf
  pub appended : after.tlog.leaves ≡ server.tlog.leaves ++ setup.sha256 (0 ∷ leaf) ∷ []
  pub file : r.file_id ≡ admitted.file_id
  pub index : r.tlog_index ≡ size server.tlog
  pub counted : r.registered_beacons ≡ length admitted.signed_beacons

log_registration-IsReceipt :
    (setup : Setup) (req : Registration) (request : Request) (server written_to : Server)
    (a : Admitted) (r : Receipt) (allowed granted : Bool)
    → require_operator_auth setup.operator_token request ≡ ok allowed
    → (rate_limit setup.trusted_proxy server request).1 ≡ ok granted
    → written_to.tlog ≡ server.tlog
    → admit setup.verify_manifest_signature req ≡ ok a
    → store setup.text_of_value req a request.time server.database ≡ ok written_to.database
    → (log_registration setup request a written_to).1 ≡ ok r
    → IsReceipt setup req request server (log_registration setup request a written_to).0 r
log_registration-IsReceipt setup req request server written_to a r allowed granted operator in_rate
      same passed stored h =
    elim (log_registration_reply setup request a written_to) [
      | inl c ↦ absurd (cc)
      | inr (i, done, o) ↦
          let (leaf, written, appended, at) =
            append-eq-some setup.sha256 setup.decode_replace (register_leaf a request.stamp)
              written_to.tlog _ i done in
          let receipt : record {
            file_id = a.file_id;
            registered_beacons = length a.signed_beacons;
            tlog_index = i;
          }
              ≡ r =
            cc in
          record {
            allowed = allowed;
            granted = granted;
            operator = operator;
            in_rate = in_rate;
            admitted = a;
            leaf = leaf;
            passed = passed;
            stored = stored ∙ ap ok (sym (log_registration_database setup request a written_to));
            written = written;
            appended =
                appended
                ∙ ap (λ (t : TransparencyLog). t.leaves ++ setup.sha256 (0 ∷ leaf) ∷ []) same;
            file = ap (λ (x : Receipt). x.file_id) (sym receipt);
            index = ap (λ (x : Receipt). x.tlog_index) (sym receipt) ∙ at ∙ ap size same;
            counted = ap (λ (x : Receipt). x.registered_beacons) (sym receipt);
          }
    ]

-- A registration that is answered with a receipt came from an operator, was within the rate, and
-- passed the checks of its manifest; the database is what the
-- transaction made of the one before, the log has one leaf more, the hash of the registration's
-- canonical record, and the receipt names that leaf's index and the number of signed beacons.
pub register-IsReceipt :
    (setup : Setup) (req : Registration) (request : Request) (server : Server) (r : Receipt)
    → (register setup req request server).1 ≡ ok r
    → IsReceipt setup req request server (register setup req request server).0 r
unfolding with_bucket
register-IsReceipt setup req request server r h = elim (register-Outcome setup req request server) [
  | raised bucket reply e refuses ↦
      absurd (refuses r (sym (ap (λ (o : Server × Reply Receipt). o.1) e) ∙ h))
  | committed bucket a db allowed granted operator in_rate passed stored e ↦
      let after = with_database (with_bucket server bucket) db in
      let answered : (log_registration setup request a after).1 ≡ ok r =
        sym (ap (λ (o : Server × Reply Receipt). o.1) e) ∙ h in
      let receipt =
        log_registration-IsReceipt setup req request server after a r allowed granted operator
          in_rate refl passed stored answered in
      rw e receipt
]
