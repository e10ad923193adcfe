-- ===== src/L3Policy.antt =====
-- oversight_core/l3_policy.py: when the synonym layer may run. The suffix of a file name,
-- `str.lower` and the answers of the patterns are parameters. The reasons and warnings, which are
-- for the reader, are left out.
pub mod Regions
pub mod Decision
use oversight.Prelude.{
  ℕ, ◌+◌, Bool, true, false, not, ◌&&◌, ◌||◌, List, [], ◌∷◌, Bytes, codes, beq, take, leb,
  if◌then◌else◌,
}
use oversight.Semantic.Spelling.{begins, within}

risky_extensions : List Bytes
risky_extensions =
    codes ".c"
    ∷ codes ".cc"
    ∷ codes ".cpp"
    ∷ codes ".cs"
    ∷ codes ".css"
    ∷ codes ".go"
    ∷ codes ".h"
    ∷ codes ".hpp"
    ∷ codes ".java"
    ∷ codes ".js"
    ∷ codes ".jsx"
    ∷ codes ".kt"
    ∷ codes ".lua"
    ∷ codes ".php"
    ∷ codes ".py"
    ∷ codes ".rb"
    ∷ codes ".rs"
    ∷ codes ".sh"
    ∷ codes ".sql"
    ∷ codes ".swift"
    ∷ codes ".ts"
    ∷ codes ".tsx"
    ∷ codes ".json"
    ∷ codes ".jsonl"
    ∷ codes ".yaml"
    ∷ codes ".yml"
    ∷ codes ".toml"
    ∷ codes ".xml"
    ∷ codes ".csv"
    ∷ codes ".tsv"
    ∷ codes ".ini"
    ∷ codes ".conf"
    ∷ codes ".cfg"
    ∷ codes ".lock"
    ∷ codes ".env"
    ∷ codes ".log"
    ∷ []

structured_extensions : List Bytes
structured_extensions =
    codes ".json"
    ∷ codes ".jsonl"
    ∷ codes ".yaml"
    ∷ codes ".yml"
    ∷ codes ".toml"
    ∷ codes ".xml"
    ∷ codes ".csv"
    ∷ codes ".tsv"
    ∷ codes ".ini"
    ∷ codes ".conf"
    ∷ codes ".cfg"
    ∷ codes ".lock"
    ∷ codes ".env"
    ∷ []

legal_extensions : List Bytes
legal_extensions =
    codes ".contract" ∷ codes ".filing" ∷ codes ".nda" ∷ codes ".msa" ∷ codes ".sow" ∷ []

structured_mime_prefixes : List Bytes
structured_mime_prefixes =
    codes "application/json"
    ∷ codes "application/xml"
    ∷ codes "application/x-yaml"
    ∷ codes "text/csv"
    ∷ codes "text/tab-separated-values"
    ∷ []

source_mime_hints : List Bytes
source_mime_hints =
    codes "source" ∷ codes "script" ∷ codes "sql" ∷ codes "json" ∷ codes "yaml" ∷ codes "xml" ∷ []

rfc2119 : List Bytes
rfc2119 =
    codes "MUST"
    ∷ codes "MUST NOT"
    ∷ codes "REQUIRED"
    ∷ codes "SHALL"
    ∷ codes "SHALL NOT"
    ∷ codes "SHOULD"
    ∷ codes "SHOULD NOT"
    ∷ codes "RECOMMENDED"
    ∷ codes "NOT RECOMMENDED"
    ∷ codes "MAY"
    ∷ codes "OPTIONAL"
    ∷ []

unfoldable pub among : Bytes → List Bytes → Bool
among text [] = false
among text (t ∷ ts) = beq text t || among text ts

unfoldable pub any_begins : List Bytes → Bytes → Bool
unfolding begins
any_begins [] text = false
any_begins (p ∷ ps) text = begins p text || any_begins ps text

unfoldable pub any_within : List Bytes → Bytes → Bool
unfolding within
any_within [] text = false
any_within (p ∷ ps) text = within p text || any_within ps text

-- What is asked of libraries: `Path(filename).suffix.lower()`, `str.lower`, a keyword between word
-- boundaries, and the patterns for regulatory, legal and technical language.
pub record Signals : Type 0 where
  pub suffix : Bytes → Bytes
  pub lower : Bytes → Bytes
  pub keyword : Bytes → Bytes → Bool
  pub regulatory : Bytes → Bool
  pub legal : Bytes → Bool
  pub technical : Bytes → Bool

unfoldable pub keyword_hits : Signals → Bytes → List Bytes → ℕ
keyword_hits s sample [] = 0
keyword_hits s sample (k ∷ ks) = (if s.keyword k sample then 1 else 0) + keyword_hits s sample ks

-- The class by the suffix of a name that is in no list of legal ones.
unfoldable pub class_by_suffix : Bytes → Bytes
unfolding among structured_extensions
class_by_suffix suffix =
    if beq suffix (codes ".sql")
    then codes "sql"
    else if beq suffix (codes ".log")
    then codes "log"
    else if among suffix structured_extensions
    then codes "structured_data"
    else codes "source_code"

-- The class by the text, where name and type say nothing.
unfoldable pub class_by_text : Signals → Bytes → Bytes
unfolding keyword_hits rfc2119
class_by_text s sample =
    if leb 3 (keyword_hits s sample rfc2119)
    then codes "technical_spec"
    else if s.regulatory sample
    then codes "regulatory"
    else if s.legal sample
    then codes "legal"
    else if s.technical sample
    then codes "technical_spec"
    else codes "prose"

pub record Document : Type 0 where
  pub filename : Bytes
  pub content_type : Bytes
  pub text : Bytes
  pub declared_class : Bytes

unfoldable pub classify_document : Signals → Document → Bytes
unfolding among any_begins any_within class_by_suffix class_by_text legal_extensions
    risky_extensions structured_mime_prefixes source_mime_hints
classify_document s d =
    let suffix = s.suffix d.filename in
    let ctype = s.lower d.content_type in
    if not (beq d.declared_class []) && not (beq d.declared_class (codes "auto"))
    then d.declared_class
    else if among suffix legal_extensions
    then codes "legal"
    else if among suffix risky_extensions
    then class_by_suffix suffix
    else if any_begins structured_mime_prefixes ctype
    then codes "structured_data"
    else if any_within source_mime_hints ctype
    then codes "source_code"
    else class_by_text s (take 8192 d.text)

abbrev pub risky_classes : List Bytes
risky_classes =
    codes "legal"
    ∷ codes "regulatory"
    ∷ codes "technical_spec"
    ∷ codes "source_code"
    ∷ codes "sql"
    ∷ codes "log"
    ∷ codes "structured_data"
    ∷ []

pub record L3Decision : Type 0 where
  pub enabled : Bool
  pub mode : Bytes
  pub document_class : Bytes
  pub requires_ack : Bool

-- The tests of `decide_l3`, in their order.
unfoldable pub decision_of : Bool → Bool → Bool → Bool → Bytes → L3Decision
decision_of off boilerplate full risky doc_class =
    if off
    then record {
      enabled = false;
      mode = codes "off";
      document_class = doc_class;
      requires_ack = false;
    }
    else if boilerplate
    then record {
      enabled = true;
      mode = codes "boilerplate";
      document_class = doc_class;
      requires_ack = true;
    }
    else if full
    then record {
      enabled = true;
      mode = codes "full";
      document_class = doc_class;
      requires_ack = true;
    }
    else if risky
    then record {
      enabled = false;
      mode = codes "off";
      document_class = doc_class;
      requires_ack = false;
    }
    else record {
      enabled = true;
      mode = codes "full";
      document_class = doc_class;
      requires_ack = true;
    }

unfoldable pub decide_l3 : Signals → Document → Bytes → L3Decision
unfolding decision_of among classify_document
decide_l3 s d requested_mode =
    let doc_class = classify_document s d in
    decision_of (beq requested_mode (codes "off")) (beq requested_mode (codes "boilerplate"))
      (beq requested_mode (codes "full")) (among doc_class risky_classes) doc_class
