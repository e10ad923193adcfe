-- ===== src/Container/Parts.antt =====
-- The header and the manifest of a sealed file, as `from_bytes` reads them.
use oversight.Prelude.{
  ℕ, ◌≡◌, refl, sym, ap, ◌∙◌, true, Option, some, [], ◌∷◌, ◌++◌, Bytes, IsBytes, beq, beq_iff, ◌==◌,
  ==_iff,
}
use oversight.Json.{is_text, Json, Fields, null, boolean, int, float, str, list, dict}
use oversight.Manifest.{Manifest}
use oversight.Manifest.Parser.{from_json}
use oversight.Result.{value_error, ok, guard, or_raise, >>=-eq-ok, guard-eq-ok, or_raise-eq-ok}
use oversight.Container.{
  magic, suite_name, read_exact, read_header, read_version, read_manifest, as_dict,
}
use oversight.Container.Framing.{read_exact-append, read_exact-eq-ok}

pub read_header_written :
    (suite_id : ℕ) (body : Bytes) → read_header (magic ++ 1 ∷ suite_id ∷ body) ≡ ok (suite_id, body)
unfolding read_header read_version
read_header_written suite_id body =
    rw
      (
        read_exact-append 6 magic (1 ∷ suite_id ∷ body) refl,
        read_exact-append 2 (1 ∷ suite_id ∷ []) body refl,
      )
      refl

read_version-eq-ok :
    (hdr body body' : Bytes) (suite_id : ℕ)
    → read_version hdr body ≡ ok (suite_id, body')
    → (hdr ≡ 1 ∷ suite_id ∷ []) × (body ≡ body')
unfolding read_version
read_version-eq-ok [] body body' suite_id h = absurd (cc)
read_version-eq-ok (v ∷ []) body body' suite_id h = absurd (cc)
read_version-eq-ok (v ∷ s ∷ []) body body' suite_id h =
    let (_, supported, h1) = >>=-eq-ok (guard (v == 1) value_error) _ h in
    let one : v ≡ 1 = (==_iff v 1).0 (guard-eq-ok (v == 1) value_error supported) in
    let same : s ≡ suite_id = cc in (cc, cc)
read_version-eq-ok (v ∷ s ∷ x ∷ more) body body' suite_id h = absurd (cc)

pub read_header-eq-ok :
    (blob body : Bytes) (suite_id : ℕ)
    → read_header blob ≡ ok (suite_id, body)
    → (blob ≡ magic ++ 1 ∷ suite_id ∷ body) × (IsBytes blob → IsBytes body)
unfolding read_header
read_header-eq-ok blob body suite_id h =
    let ((start, rest), first, h1) = >>=-eq-ok (read_exact 6 blob) _ h in
    let (_, known, h2) = >>=-eq-ok (guard (beq start magic) value_error) _ h1 in
    let ((hdr, body'), second, h3) = >>=-eq-ok (read_exact 2 rest) _ h2 in
    let (whole, _, octets) = read_exact-eq-ok 6 blob start rest first in
    let (inner, _, octets') = read_exact-eq-ok 2 rest hdr body' second in
    let is_magic = (beq_iff start magic).0 (guard-eq-ok (beq start magic) value_error known) in
    let (shape, same) = read_version-eq-ok hdr body' body suite_id h3 in
    (whole ∙ rw (is_magic, inner, shape, same) refl, λ b. rw same at ((octets' (octets b).1).1))

module _ (loads : Bytes → Option Json) where
  pub read_manifest_lem :
      (suite_id : ℕ) (json suite : Bytes) (m : Manifest)
      → from_json loads json ≡ ok m
      → suite_name suite_id ≡ some suite
      → is_text suite m.suite ≡ true
      → read_manifest loads suite_id json ≡ ok m
  unfolding read_manifest
  read_manifest_lem suite_id json suite m p n a = rw (p, n, a) refl

  pub read_manifest-eq-ok :
      (suite_id : ℕ) (json : Bytes) (m : Manifest)
      → read_manifest loads suite_id json ≡ ok m
      → (suite : Bytes) × (from_json loads json ≡ ok m)
        × (suite_name suite_id ≡ some suite)
        × (is_text suite m.suite ≡ true)
  unfolding read_manifest
  read_manifest-eq-ok suite_id json m h =
      let (m', parsed, h1) = >>=-eq-ok (from_json loads json) _ h in
      let (suite, named, h2) = >>=-eq-ok (or_raise (suite_name suite_id) value_error) _ h1 in
      let (_, agreed, h3) = >>=-eq-ok (guard (is_text suite m'.suite) value_error) _ h2 in
      let same : m' ≡ m = cc in
      let fits = guard-eq-ok (is_text suite m'.suite) value_error agreed in
      (
        suite,
        parsed ∙ ap ok same,
        or_raise-eq-ok (suite_name suite_id) value_error named,
        ap (λ (x : Manifest). is_text suite x.suite) (sym same) ∙ fits,
      )

  pub as_dict-eq-ok : (v : Json) (fs : Fields) → as_dict v ≡ ok fs → v ≡ dict fs
  unfolding as_dict
  as_dict-eq-ok (dict gs) fs h = cc
  as_dict-eq-ok null fs h = absurd (cc)
  as_dict-eq-ok (boolean b) fs h = absurd (cc)
  as_dict-eq-ok (int n) fs h = absurd (cc)
  as_dict-eq-ok (float s) fs h = absurd (cc)
  as_dict-eq-ok (str s) fs h = absurd (cc)
  as_dict-eq-ok (list vs) fs h = absurd (cc)
