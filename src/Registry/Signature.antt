-- ===== src/Registry/Signature.antt =====
-- registry/server.py: `_verify_manifest_signature`, and what it means for an admitted registration.
use oversight.Prelude.{
  ◌≡◌, refl, sym, ap, ◌∙◌, Bool, true, false, not, inl, inr, Option, none, some, [], Bytes, beq,
  codes, Option-cases,
}
use oversight.Json.{Json, Fields, null, boolean, int, float, str, list, dict, get_or, truthy}
use oversight.Jcs.{jcs_dumps}
use oversight.Crypto.{Primitives}
use oversight.Manifest.{Manifest, verify}
use oversight.Manifest.Parser.{from_json}
use oversight.Result as Core
use oversight.Registry.Store.{register, Receipt}
use oversight.Registry.Receipts.{IsReceipt, register-IsReceipt}
use oversight.Registry.{
  Setup, Server, Request, Reply, ok, >>=-eq-ok, or_crash, or_crash-eq-ok, require, require-eq-ok,
}
use oversight.Registry.Register.{Registration, Admitted, admit, recipient_of, signed_artifacts}

-- The issuer of a verified manifest is a text; of another value nothing is read.
text_or_empty : Json → Bytes
text_or_empty (str text) = text
text_or_empty v = []

-- The answer for a manifest that was parsed; `none` stands for an exception of `verify`.
answer : Core.Result Bool → Json → Option (Bool × Bytes)
unfolding text_or_empty
answer (Core.ok b) issuer = some (b, text_or_empty issuer)
answer (Core.raised e) issuer = none

issuer_of : Reply Admitted → Bytes
issuer_of (ok a) = a.issuer_pub
issuer_of r = []

not-true : (b : Bool) → not b ≡ true → b ≡ false
not-true false h = refl
not-true true h = sym h

module _ (p : Primitives) (loads : Bytes → Option Json) where
  -- Every exception of the parser counts as a manifest that is not signed.
  verify_parsed : Core.Result Manifest → Option (Bool × Bytes)
  unfolding answer verify
  verify_parsed (Core.raised e) = some (false, [])
  verify_parsed (Core.ok m) = answer (verify p m) m.issuer_ed25519_pub

  verify_text : Option Bytes → Option (Bool × Bytes)
  unfolding verify_parsed from_json
  verify_text none = some (false, [])
  verify_text (some text) = verify_parsed (from_json loads text)

  unfoldable pub verify_manifest_signature : Fields → Option (Bool × Bytes)
  unfolding verify_text jcs_dumps
  verify_manifest_signature manifest_dict = verify_text (jcs_dumps (dict manifest_dict))

  answer-eq-some :
      (r : Core.Result Bool) (issuer : Json) (issuer_pub : Bytes)
      → answer r issuer ≡ some (true, issuer_pub)
      → (r ≡ Core.ok true) × (text_or_empty issuer ≡ issuer_pub)
  unfolding answer
  answer-eq-some (Core.raised e) issuer issuer_pub h = absurd (cc)
  answer-eq-some (Core.ok b) issuer issuer_pub h =
      let same : (b, text_or_empty issuer) ≡ (true, issuer_pub) = Core.some_inj h in
      (ap (λ (o : Bool × Bytes). Core.ok o.0) same, ap (λ (o : Bool × Bytes). o.1) same)

  -- The manifest behind a signature that was accepted.
  pub record IsSigned (manifest_dict : Fields) (issuer_pub : Bytes) : Type 0 where
    pub text : Bytes
    pub manifest : Manifest
    pub canonical : jcs_dumps (dict manifest_dict) ≡ some text
    pub parsed : from_json loads text ≡ Core.ok manifest
    pub verified : verify p manifest ≡ Core.ok true
    pub issuer : manifest.issuer_ed25519_pub ≡ str issuer_pub

  text_or_empty-str :
      (v : Json) (text : Bytes) → text_or_empty v ≡ text → beq text [] ≡ false → v ≡ str text
  unfolding text_or_empty
  text_or_empty-str (str s) text h k = ap str h
  text_or_empty-str null text h k = absurd (cc)
  text_or_empty-str (boolean b) text h k = absurd (cc)
  text_or_empty-str (int n) text h k = absurd (cc)
  text_or_empty-str (float s) text h k = absurd (cc)
  text_or_empty-str (list vs) text h k = absurd (cc)
  text_or_empty-str (dict fs) text h k = absurd (cc)

  false_is_true : {C : Type 0} → false ≡ true → C
  false_is_true h = absurd (cc)

  verify_parsed-IsSigned :
      (manifest_dict : Fields) (issuer_pub text : Bytes)
      → jcs_dumps (dict manifest_dict) ≡ some text
      → verify_parsed (from_json loads text) ≡ some (true, issuer_pub)
      → beq issuer_pub [] ≡ false
      → IsSigned manifest_dict issuer_pub
  unfolding verify_parsed
  verify_parsed-IsSigned manifest_dict issuer_pub text e h k =
      elim (Core.Result-cases (from_json loads text)) [
        | inr (x, q) ↦
            let no : some (false, []) ≡ some (true, issuer_pub) = ap verify_parsed (sym q) ∙ h in
            false_is_true (ap (λ (o : Bool × Bytes). o.0) (Core.some_inj no))
        | inl (m, q) ↦
            let (verified, issuer) =
              answer-eq-some (verify p m) m.issuer_ed25519_pub issuer_pub
                (ap verify_parsed (sym q) ∙ h) in
            record {
              text = text;
              manifest = m;
              canonical = e;
              parsed = q;
              verified = verified;
              issuer = text_or_empty-str m.issuer_ed25519_pub issuer_pub issuer k;
            }
      ]

  verify_manifest_signature-IsSigned :
      (manifest_dict : Fields) (issuer_pub : Bytes)
      → verify_manifest_signature manifest_dict ≡ some (true, issuer_pub)
      → beq issuer_pub [] ≡ false
      → IsSigned manifest_dict issuer_pub
  unfolding verify_manifest_signature verify_text
  verify_manifest_signature-IsSigned manifest_dict issuer_pub h k =
      elim (Option-cases (jcs_dumps (dict manifest_dict))) [
        | inl e ↦
            let no : some (false, []) ≡ some (true, issuer_pub) = ap verify_text (sym e) ∙ h in
            false_is_true (ap (λ (o : Bool × Bytes). o.0) (Core.some_inj no))
        | inr (text, e) ↦
            verify_parsed-IsSigned manifest_dict issuer_pub text e (ap verify_text (sym e) ∙ h) k
      ]

  admit-IsSigned :
      (req : Registration) (a : Admitted)
      → admit verify_manifest_signature req ≡ ok a
      → IsSigned req.manifest a.issuer_pub
  unfolding admit issuer_of
  admit-IsSigned req a h =
      let (recipient_id, _, h1) =
        >>=-eq-ok (recipient_of (get_or (codes "recipient") null req.manifest)) _ h in
      let (named, _, h2) =
        >>=-eq-ok (require (truthy (get_or (codes "file_id") null req.manifest)) 400 _) _ h1 in
      let ((sig_ok, issuer_pub), checked, h3) =
        >>=-eq-ok (or_crash (verify_manifest_signature req.manifest)) _ h2 in
      let (c, signed, h4) = >>=-eq-ok (require sig_ok 400 _) _ h3 in
      let (c', keyed, h5) = >>=-eq-ok (require (not (beq issuer_pub [])) 400 _) _ h4 in
      let (signed_beacons, _, h6) =
        >>=-eq-ok (signed_artifacts (codes "beacons") req.beacons req.manifest _) _ h5 in
      let (signed_watermarks, _, h7) =
        >>=-eq-ok (signed_artifacts (codes "watermarks") req.watermarks req.manifest _) _ h6 in
      let good : sig_ok ≡ true = require-eq-ok sig_ok 400 _ signed in
      let given : not (beq issuer_pub []) ≡ true =
        require-eq-ok (not (beq issuer_pub [])) 400 _ keyed in
      let answered = or_crash-eq-ok (verify_manifest_signature req.manifest) checked in
      let same : issuer_pub ≡ a.issuer_pub = ap issuer_of h7 in
      rw⁻¹ same (
        verify_manifest_signature-IsSigned req.manifest issuer_pub
          (answered ∙ ap (λ b. some (b, issuer_pub)) good) (not-true (beq issuer_pub []) given))

  -- Where the service checks signatures with the manifest's own parser and `verify`, a registration
  -- that is answered with a receipt comes with a manifest whose canonical text parses to a manifest
  -- that `verify` accepts, under the key that the row of the file and the leaf were written with.
  pub register-IsSigned :
      (setup : Setup) (req : Registration) (request : Request) (server : Server) (r : Receipt)
      → setup.verify_manifest_signature ≡ verify_manifest_signature
      → (register setup req request server).1 ≡ ok r
      → (receipt : IsReceipt setup req request server (register setup req request server).0 r)
        × IsSigned req.manifest receipt.admitted.issuer_pub
  register-IsSigned setup req request server r same h =
      let receipt = register-IsReceipt setup req request server r h in
      (
        receipt,
        admit-IsSigned req receipt.admitted
            (ap (λ check. admit check req) (sym same) ∙ receipt.passed),
      )
