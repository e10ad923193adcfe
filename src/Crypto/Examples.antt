-- ===== src/Crypto/Examples.antt =====
-- Primitives for which the laws hold, and instances of the theorems. They hide nothing.
use oversight.Prelude.{true, ◌≡◌, refl, none, some, [], ◌∷◌, Bytes, replicate, arith}
use oversight.Json.{Fields}
use oversight.Result.{ok}
use oversight.Crypto.{Primitives, hybrid_wrap_dek, hybrid_unwrap_dek}
use oversight.Crypto.Wrapping.{IsLawful, hybrid_unwrap_dek-hybrid_wrap_dek}

-- Every exchange has one secret, and sealing writes the text behind a tag.
abbrev pub toy : Primitives
toy = record {
  x25519_public = λ priv. some priv;
  x25519_exchange = λ priv pub_key. some (7 ∷ []);
  p256_public = λ priv. some (replicate 65 4);
  p256_exchange = λ priv pub_key. some (7 ∷ []);
  kem_encap = λ coins pub_key. some (5 ∷ [], 6 ∷ []);
  kem_decap = λ priv ct. some (6 ∷ []);
  pq_available = true;
  hkdf = λ info ikm. replicate 32 9;
  aead_seal = λ key nonce aad text. some (0 ∷ text);
  aead_open = λ key nonce aad ct. elim ct [ [] ↦ none | tag ∷ text ↦ some text ];
  ed25519_sign = λ priv message. some (replicate 64 1);
  ed25519_verify = λ pub_key signature message. true;
  sha256 = λ message. replicate 32 0;
}

pub toy-IsLawful : IsLawful toy
toy-IsLawful = record {
  derived = λ info ikm. refl;
  opens = λ key nonce aad text k n b. (0 ∷ text, refl, (omega arith, b), refl);
  x25519_agrees = λ a b a_pub b_pub e f. refl;
  p256_agrees = λ a b a_pub b_pub e f. refl;
}

abbrev key : Bytes
key = replicate 32 3

abbrev nonce : Bytes
nonce = replicate 24 2

hybrid_unwrap_dek-hybrid_wrap_dek_example :
    (w : Fields) × (hybrid_wrap_dek toy (8 ∷ []) nonce [] key key [] ≡ ok w)
    × (hybrid_unwrap_dek toy w key [] ≡ ok key)
hybrid_unwrap_dek-hybrid_wrap_dek_example =
    hybrid_unwrap_dek-hybrid_wrap_dek toy toy-IsLawful nonce key refl (omega arith) (omega arith)
      (8 ∷ []) [] key [] (8 ∷ []) key [] (7 ∷ []) (5 ∷ []) (6 ∷ []) refl refl (omega arith)
      (omega arith) refl refl refl refl refl
