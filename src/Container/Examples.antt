-- ===== src/Container/Examples.antt =====
-- A small file, sealed and opened over the toy primitives. The JSON reader knows the two texts of it.
use oversight.Prelude.{
  ◌≡◌, ◌↔◌, ◌≤◌, refl, sym, ◌∙◌, true, false, Option, none, some, List, [], ◌∷◌, Bytes, IsBytes,
  codes, pos, leb, arith, length, replicate, if◌then◌else◌,
}
use oversight.Json.{is_text, Json, Fields, null, int, str, dict, get}
use oversight.Jcs.{jcs_dumps}
use oversight.Hex.{hex}
use oversight.Crypto.{wrap_dek_for_recipient, envelope}
use oversight.Crypto.Examples.{toy, toy-IsLawful}
use oversight.Manifest.{Recipient, Manifest, to_dict, strip_none, to_json}
use oversight.Manifest.Parser.{new, from_json}
use oversight.Manifest.Examples.{key-SignsFor}
use oversight.Policy.{Disk, check_policy, record_open}
use oversight.Result.{Result, ok, raised, value_error, ok_inj, some_inj}
use oversight.Container.{
  SealedFile, suite_name, from_bytes, to_bytes, max_manifest_bytes, max_wrapped_dek_bytes,
}
use oversight.Container.Layout.{IsLayout, from_bytes-iff-IsLayout}
use oversight.Container.Seal.{seal, open_sealed, is_trusted}
use oversight.Container.Opening.{IsOpened, open_sealed-raised, open_sealed-eq-ok}
use oversight.Container.Sealing.{IsReadable, open_sealed-seal}

abbrev key : Bytes
key = replicate 32 3

abbrev nonce : Bytes
nonce = replicate 24 2

abbrev bob : Recipient
bob = record {
  recipient_id = str (codes "bob");
  x25519_pub = str (hex key);
  ed25519_pub = null;
  p256_pub = null;
}

abbrev draft : Manifest
draft =
    new (str (codes "f1")) (int (pos 1)) (str (codes "a.txt")) (str (hex (replicate 32 0)))
      (int (pos 2)) (str (codes "alice")) (str (hex key)) bob (str (codes "r"))
      (str (codes "text/plain")) none none (str (codes "GLOBAL"))

abbrev signed : Manifest
signed = record draft { signature_ed25519 = str (hex (replicate 64 1)) }

abbrev loads : Bytes → Option Json
loads text =
    if leb 400 (length text)
    then some (strip_none (to_dict true signed))
    else some (dict (envelope key nonce (0 ∷ key)))

abbrev file : SealedFile
file = record {
  manifest = signed;
  wrapped_dek = envelope key nonce (0 ∷ key);
  aead_nonce = nonce;
  ciphertext = 0 ∷ codes "hi";
  suite_id = 1;
}

abbrev bytes_of : Result Bytes → Bytes
bytes_of (ok bs) = bs
bytes_of (raised e) = []

abbrev text_of : Option Bytes → Bytes
text_of none = []
text_of (some bs) = bs

abbrev manifest_text : Bytes
manifest_text = bytes_of (to_json signed)

abbrev blob : Bytes
blob = bytes_of (to_bytes file)

written : to_bytes file ≡ ok blob
unfolding to_bytes new hex envelope
written = refl

printed : to_json signed ≡ ok manifest_text
unfolding to_json new hex
printed = refl

reread : from_json loads manifest_text ≡ ok signed
unfolding to_json new hex from_json strip_none to_dict
reread = refl

abbrev wrapped_text : Bytes
wrapped_text = text_of (jcs_dumps (dict (envelope key nonce (0 ∷ key))))

dumped : jcs_dumps (dict (envelope key nonce (0 ∷ key))) ≡ some wrapped_text
unfolding jcs_dumps envelope hex
dumped = refl

reloaded : loads wrapped_text ≡ some (dict (envelope key nonce (0 ∷ key)))
unfolding jcs_dumps envelope hex
reloaded = refl

short : length manifest_text ≤ max_manifest_bytes
unfolding to_json new hex
short = omega arith

wrapped_short : length wrapped_text ≤ max_wrapped_dek_bytes
unfolding jcs_dumps envelope hex
wrapped_short = omega arith

classic : is_text (codes "OSGT-CLASSIC-v1") signed.suite ≡ true
unfolding new is_text
classic = refl

named : suite_name 1 ≡ some (codes "OSGT-CLASSIC-v1")
unfolding suite_name
named = refl

blob_octets : IsBytes blob
unfolding to_bytes new hex envelope
blob_octets = omega arith

from_bytes-iff-IsLayout_example : (from_bytes loads blob ≡ ok file) ↔ IsLayout loads blob file
from_bytes-iff-IsLayout_example = from_bytes-iff-IsLayout loads blob file blob_octets

abbrev empty_disk : Disk
empty_disk = record { files = []; full = false }

abbrev nobody : Option (List Bytes)
nobody = some []

untrusted :
    (open_sealed toy loads blob key nobody none (pos 5) (pos 6) empty_disk).1 ≡ raised value_error
unfolding open_sealed to_bytes new hex envelope
untrusted = refl

open_sealed-raised_example :
    (open_sealed toy loads blob key nobody none (pos 5) (pos 6) empty_disk).0 ≡ empty_disk
open_sealed-raised_example =
    open_sealed-raised toy loads blob key nobody none (pos 5) (pos 6) empty_disk value_error
      untrusted

wraps : wrap_dek_for_recipient toy key nonce key key ≡ ok (envelope key nonce (0 ∷ key))
unfolding wrap_dek_for_recipient
wraps = refl

file-IsReadable : IsReadable loads file
file-IsReadable = record {
  manifest_json = manifest_text;
  wrapped_json = wrapped_text;
  printed = printed;
  reread = reread;
  dumped = dumped;
  reloaded = reloaded;
  manifest_size = short;
  wrapped_size = wrapped_short;
  ciphertext_size = omega arith;
}

readable :
    (w : Fields) (aad ct : Bytes)
    → wrap_dek_for_recipient toy key nonce key key ≡ ok w
    → some (0 ∷ codes "hi") ≡ some ct
    → IsReadable loads (record {
      manifest = signed;
      wrapped_dek = w;
      aead_nonce = nonce;
      ciphertext = ct;
      suite_id = 1;
    })
readable w aad ct h k =
    let same : w ≡ envelope key nonce (0 ∷ key) = ok_inj (sym h ∙ wraps) in
    let same_ct : ct ≡ 0 ∷ codes "hi" = some_inj (sym k) in rw (same, same_ct) file-IsReadable

issuer : draft.issuer_ed25519_pub ≡ str (hex key)
unfolding new
issuer = refl

suite : draft.suite ≡ str (codes "OSGT-CLASSIC-v1")
unfolding new
suite = refl

trusted : is_trusted (str (hex key)) (some (hex key ∷ [])) ≡ true
unfolding is_trusted is_text hex
trusted = refl

allowed : check_policy signed none (pos 5) ≡ ok tt
unfolding check_policy new get
allowed = refl

recorded : record_open signed none (pos 6) empty_disk ≡ (empty_disk, ok (pos 0))
unfolding record_open
recorded = refl

sealed : seal toy key nonce key nonce (codes "hi") draft key key ≡ (signed, ok blob)
unfolding seal new hex to_bytes envelope
sealed = refl

open_sealed-seal_example :
    open_sealed toy loads blob key (some (hex key ∷ [])) none (pos 5) (pos 6) empty_disk
    ≡ (empty_disk, ok (codes "hi", signed))
open_sealed-seal_example =
    open_sealed-seal toy toy-IsLawful loads key nonce key nonce (codes "hi") key key key key key
      (7 ∷ []) blob draft signed (some (hex key ∷ [])) none (pos 5) (pos 6) empty_disk empty_disk
      (pos 0) key-SignsFor issuer suite refl refl (omega arith) (omega arith) (omega arith) refl
      (omega arith) refl refl refl readable trusted allowed recorded sealed

opened :
    open_sealed toy loads blob key (some (hex key ∷ [])) none (pos 5) (pos 6) empty_disk
    ≡ (empty_disk, ok (codes "hi", signed))
unfolding open_sealed to_bytes new hex envelope
opened = refl

open_sealed-eq-ok_example :
    IsOpened toy loads blob key
      (some (hex key ∷ []))
      none
      (pos 5)
      (pos 6)
      empty_disk
      empty_disk
      (codes "hi")
      signed
open_sealed-eq-ok_example =
    open_sealed-eq-ok toy loads blob key (some (hex key ∷ [])) none (pos 5) (pos 6) empty_disk
      empty_disk (codes "hi") signed opened
