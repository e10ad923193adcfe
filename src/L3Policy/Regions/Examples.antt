-- ===== src/L3Policy/Regions/Examples.antt =====
-- Runs of the policy, and instances of its theorems.
use oversight.Prelude.{
  ℕ, ◌≡◌, ◌⊎◌, refl, true, false, not, Option, some, List, [], ◌∷◌, ◌++◌, Bytes, codes, beq, ◌==◌,
}
use oversight.Semantic.Case.{Text}
use oversight.Semantic.Examples.{digest, ascii_word}
use oversight.Semantic.Spelling.{embed_spelling}
use oversight.L3Policy.{Signals, Document, decide_l3, classify_document, among, risky_classes}
use oversight.L3Policy.Decision.{decide_l3_explicit}
use oversight.L3Policy.Regions.{Splitting, concat, mark_segment_with, apply_l3_safe}
use oversight.L3Policy.Regions.Kept.{KeptLines, layers, apply_l3_safe-KeptLines}

abbrev no_spans : Text → List (ℕ × ℕ)
no_spans text = []

-- The mark of 16 bytes with every bit set: British spelling.
abbrev ones : Bytes
ones = 255 ∷ []

-- A spelling that stands within its variant is replaced there too.
programme_run : embed_spelling ◌==◌ (codes "a programme") ones ≡ some (codes "a programmeme")
unfolding embed_spelling
programme_run = refl

abbrev first_line : Text
first_line = codes "```\n"

abbrev second_line : Text
second_line = codes "color\n"

abbrev third_line : Text
third_line = codes "```\n"

abbrev last_line : Text
last_line = codes "color"

abbrev source : Text
source = first_line ++ (second_line ++ (third_line ++ last_line))

abbrev split : Splitting
split = record {
  splitlines = λ t. first_line ∷ second_line ∷ third_line ∷ last_line ∷ [];
  strip = λ t. t;
  is_protected = λ t. false;
  names_boilerplate = λ t. false;
  split_quotes = λ t. t ∷ [];
}

source_run :
    apply_l3_safe digest ascii_word no_spans ◌==◌ split source ones (codes "full")
    ≡ some (codes "```\ncolor\n```\ncolour")
unfolding apply_l3_safe
source_run = refl

abbrev layer : Text → Option Text
layer = layers digest ascii_word no_spans ◌==◌ split ones

fence_run : layer first_line ≡ some first_line
unfolding mark_segment_with
fence_run = refl

colour_run : layer last_line ≡ some (codes "colour")
unfolding mark_segment_with
colour_run = refl

code_run : layer second_line ≡ some (codes "colour\n")
unfolding mark_segment_with
code_run = refl

apply_l3_safe-KeptLines_example :
    (out : List Text) × (apply_l3_safe digest ascii_word no_spans ◌==◌ split source ones
        (codes "full")
      ≡ some (concat out))
    × KeptLines split layer false (split.splitlines source) out
unfolding concat
apply_l3_safe-KeptLines_example =
    apply_l3_safe-KeptLines digest ascii_word no_spans ◌==◌ split ones source (codes "full") refl (
      ((first_line, fence_run), tt),
      (
        ((codes "colour\n", code_run), tt),
        (((third_line, fence_run), tt), (((codes "colour", colour_run), tt), tt)),
      ),
    )

abbrev signals : Signals
signals = record {
  suffix = λ name. codes ".py";
  lower = λ t. t;
  keyword = λ k t. false;
  regulatory = λ t. false;
  legal = λ t. false;
  technical = λ t. false;
}

abbrev script : Document
script = record {
  filename = codes "run.py";
  content_type = [];
  text = source;
  declared_class = codes "auto";
}

script_risky : among (classify_document signals script) risky_classes ≡ true
unfolding classify_document among
script_risky = refl

decide_l3_explicit_example :
    ((among (classify_document signals script) risky_classes ≡ false)
      ⊎ (((decide_l3 signals script (codes "auto")).enabled ≡ false)
          ⊎ ((codes "auto" ≡ codes "boilerplate") ⊎ (codes "auto" ≡ codes "full"))))
    × ((beq (codes "auto") (codes "off") ≡ false)
        ⊎ ((decide_l3 signals script (codes "auto")).enabled ≡ false))
    × ((decide_l3 signals script (codes "auto")).requires_ack
        ≡ (decide_l3 signals script (codes "auto")).enabled)
    × (beq (decide_l3 signals script (codes "auto")).mode (codes "off")
        ≡ not (decide_l3 signals script (codes "auto")).enabled)
decide_l3_explicit_example = decide_l3_explicit signals script (codes "auto")
