-- ===== src/Watermark.antt =====
-- oversight_core/watermark.py: both invisible layers together. `include_l3` is false, its default;
-- the density is `embed_zw`'s default.
pub mod Layers
pub mod Examples
use oversight.Prelude.{ℕ, none, some, List, [], ◌∷◌, Bytes}
use oversight.ZeroWidth.{embed_zw, extract_zw}
use oversight.Whitespace.{embed_ws, extract_ws}

abbrev pub default_density : ℕ
default_density = 40

-- L2 runs first, then L1.
unfoldable pub apply_all : List ℕ → Bytes → List ℕ
unfolding embed_ws embed_zw
apply_all text mark_id = embed_zw (embed_ws text mark_id) mark_id default_density

pub record Recovered : Type 0 where
  pub l1_zero_width : List Bytes
  pub l2_whitespace : List Bytes
  pub l3_synonyms : List Bytes

-- `[m for m in [extract_ws(…)] if m]`: an empty mark counts as none.
found_marks : List ℕ → ℕ → List Bytes
found_marks text mark_len_bytes = elim (extract_ws text mark_len_bytes) [
  | none ↦ []
  | some mark_id ↦ elim mark_id [ [] ↦ [] | b ∷ bs ↦ (b ∷ bs) ∷ [] ]
]

unfoldable pub recover_marks : List ℕ → ℕ → Recovered
unfolding found_marks extract_zw extract_ws
recover_marks text mark_len_bytes = record {
  l1_zero_width = extract_zw text mark_len_bytes;
  l2_whitespace = found_marks text mark_len_bytes;
  l3_synonyms = [];
}
