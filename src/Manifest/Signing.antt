-- ===== src/Manifest/Signing.antt =====
-- What `sign` writes, `verify` accepts.
use oversight.Prelude.{◌≡◌, ◌≢◌, refl, sym, ap, ◌∙◌, true, some, [], ◌∷◌, Bytes, IsBytes}
use oversight.Json.{Json, str, truthy}
use oversight.Hex.{hex}
use oversight.Hex.Laws.{fromhex-hex}
use oversight.Crypto.{Primitives, sign_manifest, verify_manifest}
use oversight.Result.{ok, >>=-eq-ok, or_raise, or_raise-eq-ok}
use oversight.Manifest.{Manifest, sign, verify, canonical_bytes, hex_bytes, to_dict}

-- A private key signs for a public key: its signatures are bytes, and they verify.
pub record SignsFor (p : Primitives) (priv pub_key : Bytes) : Type 0 where
  pub octets : IsBytes pub_key
  pub named : pub_key ≢ []
  pub verifies :
      (message sig : Bytes)
      → p.ed25519_sign priv message ≡ some sig
      → IsBytes sig × (sig ≢ []) × (p.ed25519_verify pub_key sig message ≡ true)

truthy-hex : (bs : Bytes) → bs ≢ [] → truthy (str (hex bs)) ≡ true
unfolding truthy hex
truthy-hex [] h = absurd (h refl)
truthy-hex (b ∷ bs) h = refl

hex_bytes-hex : (bs : Bytes) → IsBytes bs → hex_bytes (str (hex bs)) ≡ ok bs
unfolding hex_bytes
hex_bytes-hex bs h = rw (fromhex-hex bs h) refl

-- Signing changes the signature only, and what was signed is not changed by it.
canonical_bytes-sign :
    (m : Manifest) (sig : Json)
    → canonical_bytes (record m { signature_ed25519 = sig }) ≡ canonical_bytes m
unfolding canonical_bytes to_dict
canonical_bytes-sign m sig = refl

module _ (p : Primitives) where
  verify_parts :
      (m : Manifest) (message sig pub_key : Bytes)
      → truthy m.signature_ed25519 ≡ true
      → truthy m.issuer_ed25519_pub ≡ true
      → canonical_bytes m ≡ ok message
      → hex_bytes m.signature_ed25519 ≡ ok sig
      → hex_bytes m.issuer_ed25519_pub ≡ ok pub_key
      → verify p m ≡ ok (p.ed25519_verify pub_key sig message)
  unfolding verify verify_manifest
  verify_parts m message sig pub_key s i c h k = rw (s, i, c, h, k) refl

  pub verify-sign :
      (priv pub_key : Bytes) (m signed : Manifest)
      → SignsFor p priv pub_key
      → m.issuer_ed25519_pub ≡ str (hex pub_key)
      → sign p priv m ≡ ok signed
      → (signed ≡ record m { signature_ed25519 = signed.signature_ed25519 })
        × (verify p signed ≡ ok true)
  unfolding sign sign_manifest
  verify-sign priv pub_key m signed keys issuer h =
      let (message, canonical, h1) = >>=-eq-ok (canonical_bytes m) _ h in
      let (sig, signs, h2) = >>=-eq-ok (or_raise (p.ed25519_sign priv message) _) _ h1 in
      let signature = or_raise-eq-ok (p.ed25519_sign priv message) _ signs in
      let (sig_octets, sig_named, accepted) = keys.verifies message sig signature in
      let made : Manifest = record m { signature_ed25519 = str (hex sig) } in
      let shape : made ≡ signed = cc in
      let verified : verify p made ≡ ok true =
        verify_parts made message sig pub_key (truthy-hex sig sig_named)
          (ap truthy issuer ∙ truthy-hex pub_key keys.named)
          (canonical_bytes-sign m (str (hex sig)) ∙ canonical) (hex_bytes-hex sig sig_octets)
          (ap hex_bytes issuer ∙ hex_bytes-hex pub_key keys.octets)
        ∙ ap ok accepted in
      (rw (sym shape) refl, ap (verify p) (sym shape) ∙ verified)
