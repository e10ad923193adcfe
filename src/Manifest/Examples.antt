-- ===== src/Manifest/Examples.antt =====
-- A small manifest, signed and verified over the toy primitives.
use oversight.Prelude.{
  ◌≡◌, ◌≢◌, refl, sym, true, none, some, [], Bytes, codes, pos, arith, replicate, IsBytes,
}
use oversight.Json.{null, int, str, dict, end, field}
use oversight.Hex.{hex}
use oversight.Crypto.Examples.{toy}
use oversight.Result.{raised, value_error}
use oversight.Manifest.{Recipient, Manifest}
use oversight.Manifest.Parser.{new, from_json}
use oversight.Manifest.Signing.{SignsFor}

abbrev key : Bytes
key = replicate 32 3

signed_bytes :
    (sig : Bytes) → some (replicate 64 1) ≡ some sig → IsBytes sig × (sig ≢ []) × (true ≡ true)
signed_bytes sig h = let e : replicate 64 1 ≡ sig = cc in rw (sym e) (omega arith, (λ q. cc), refl)

pub key-SignsFor : SignsFor toy key key
key-SignsFor = record {
  octets = omega arith;
  named = λ e. cc;
  verifies = λ message sig h. signed_bytes sig h;
}

abbrev bob : Recipient
bob = record {
  recipient_id = str (codes "bob");
  x25519_pub = str (codes "00");
  ed25519_pub = null;
  p256_pub = null;
}

abbrev pub draft : Manifest
draft =
    new (str (codes "f1")) (int (pos 1)) (str (codes "a.txt")) (str (codes "aa")) (int (pos 2))
      (str (codes "alice")) (str (hex key)) bob (str (codes "r")) (str (codes "text/plain")) none
      none (str (codes "GLOBAL"))

abbrev pub signed_draft : Manifest
signed_draft = record draft { signature_ed25519 = str (hex (replicate 64 1)) }

strict :
    from_json
      (λ bytes. some (dict (field (codes "file_id") (str []) (field (codes "extra") null end))))
      []
    ≡ raised value_error
unfolding from_json
strict = refl
