-- ===== src/Jcs.antt =====
-- oversight_core/jcs.py: the canonical text of a JSON value (RFC 8785 without floats). `none` stands
-- for the exceptions: a `TypeError` on a float, and a `UnicodeEncodeError` on a lone surrogate.
pub mod Digits
use oversight.Prelude.{
  ℕ, zero, suc, ◌+◌, ◌-◌, ◌/◌, ◌%◌, Bool, true, false, ◌&&◌, ◌||◌, Option, none, some, ◌>>=◌, List,
  [], ◌∷◌, ◌++◌, Bytes, ℤ, pos, negsuc, codes, ltb, leb, ◌==◌, if◌then◌else◌,
}
use oversight.Json.{
  Json, Items, Fields, null, boolean, int, float, str, list, dict, nil, cons, end, field,
}

-- Digits before `rest`, with fuel.
unfoldable pub decimal_before : ℕ → ℕ → Bytes → Bytes
decimal_before zero n rest = rest
decimal_before (suc fuel) n rest =
    let more = decimal_before fuel (n / 10) ((48 + n % 10) ∷ rest) in
    if ltb n 10 then (48 + n) ∷ rest else more

-- `str(obj)` of an integer; a number has fewer digits than its successor is.
unfoldable pub decimal : ℤ → Bytes
unfolding decimal_before
decimal (pos n) = decimal_before (suc n) n []
decimal (negsuc n) = 45 ∷ decimal_before (suc (suc n)) (suc n) []

hex_digit : ℕ → ℕ
hex_digit d = if ltb d 10 then 48 + d else 87 + d

-- `_SHORT_ESCAPES.get(cp, f"\\u{cp:04x}")`
escape : ℕ → Bytes
unfolding hex_digit
escape c =
    if c == 8
    then codes "\\b"
    else if c == 9
    then codes "\\t"
    else if c == 10
    then codes "\\n"
    else if c == 12
    then codes "\\f"
    else if c == 13
    then codes "\\r"
    else codes "\\u00" ++ hex_digit (c / 16) ∷ hex_digit (c % 16) ∷ []

serialize_char : ℕ → Bytes
unfolding escape
serialize_char c =
    if c == 34
    then codes "\\\""
    else if c == 92
    then codes "\\\\"
    else if ltb c 32
    then escape c
    else c ∷ []

serialize_chars : Bytes → Bytes
unfolding serialize_char
serialize_chars [] = []
serialize_chars (c ∷ s) = serialize_char c ++ serialize_chars s

is_surrogate : ℕ → Bool
is_surrogate c = leb 55296 c && leb c 57343

has_surrogate : Bytes → Bool
unfolding is_surrogate
has_surrogate [] = false
has_surrogate (c ∷ s) = is_surrogate c || has_surrogate s

-- `_serialize_str`, with the failure of the encoding
serialize_str : Bytes → Option Bytes
unfolding serialize_chars has_surrogate
serialize_str s = if has_surrogate s then none else some (34 ∷ serialize_chars s ++ 34 ∷ [])

-- `encode("utf-16-be")` of a text without surrogates
utf16 : Bytes → Bytes
utf16 [] = []
utf16 (c ∷ s) =
    if ltb c 65536
    then c / 256 ∷ c % 256 ∷ utf16 s
    else (let high = 55296 + (c - 65536) / 1024 in
        let low = 56320 + (c - 65536) % 1024 in
        high / 256 ∷ high % 256 ∷ low / 256 ∷ low % 256 ∷ utf16 s)

-- Is one byte string before the other, or the same?
unfoldable pub before : Bytes → Bytes → Bool
before [] ys = true
before (x ∷ xs) [] = false
before (x ∷ xs) (y ∷ ys) = ltb x y || (x == y && before xs ys)

-- An item that is serialized already, put behind the items with a key before or the same.
insert_item : Bytes × Bytes → List (Bytes × Bytes) → List (Bytes × Bytes)
unfolding utf16 before
insert_item item [] = item ∷ []
insert_item item (other ∷ items) =
    let rest = insert_item item items in
    if before (utf16 item.0) (utf16 other.0) then item ∷ other ∷ items else other ∷ rest

-- The sort is stable, and equal keys do not occur.
sort_items : List (Bytes × Bytes) → List (Bytes × Bytes)
unfolding insert_item
sort_items [] = []
sort_items (item ∷ items) = insert_item item (sort_items items)

join_items : List (Bytes × Bytes) → Bytes
join_items [] = []
join_items ((k, text) ∷ []) = text
join_items ((k, text) ∷ item ∷ items) = text ++ 44 ∷ join_items (item ∷ items)

join_texts : List Bytes → Bytes
join_texts [] = []
join_texts (text ∷ []) = text
join_texts (text ∷ next ∷ texts) = text ++ 44 ∷ join_texts (next ∷ texts)

-- `_serialize`. The items of a dictionary are serialized before they are sorted: the text of an
-- item does not depend on where it stands.
unfoldable mutual
  unfolding decimal serialize_str sort_items join_items join_texts

  pub serialize : Json → Option Bytes
  serialize null = some (codes "null")
  serialize (boolean b) = some (if b then codes "true" else codes "false")
  serialize (int n) = some (decimal n)
  serialize (float text) = none
  serialize (str s) = serialize_str s
  serialize (list vs) = do texts ← serialize_list vs; some (91 ∷ join_texts texts ++ 93 ∷ [])
  serialize (dict fs) = do
    items ← serialize_items fs
    some (123 ∷ join_items (sort_items items) ++ 125 ∷ [])

  serialize_list : Items → Option (List Bytes)
  serialize_list nil = some []
  serialize_list (cons v vs) = do text ← serialize v; texts ← serialize_list vs; some (text ∷ texts)

  serialize_items : Fields → Option (List (Bytes × Bytes))
  serialize_items end = some []
  serialize_items (field k v fs) = do
    key ← serialize_str k
    value ← serialize v
    items ← serialize_items fs
    some ((k, key ++ 58 ∷ value) ∷ items)

-- The UTF-8 bytes of a code point.
utf8_char : ℕ → Bytes
utf8_char c =
    if ltb c 128
    then c ∷ []
    else if ltb c 2048
    then (192 + c / 64) ∷ (128 + c % 64) ∷ []
    else if ltb c 65536
    then (224 + c / 4096) ∷ (128 + (c / 64) % 64) ∷ (128 + c % 64) ∷ []
    else (240 + c / 262144) ∷ (128 + (c / 4096) % 64) ∷ (128 + (c / 64) % 64) ∷ (128 + c % 64) ∷ []

unfoldable pub utf8 : Bytes → Bytes
unfolding utf8_char
utf8 [] = []
utf8 (c ∷ s) = utf8_char c ++ utf8 s

unfoldable pub jcs_dumps : Json → Option Bytes
unfolding serialize utf8
jcs_dumps v = do text ← serialize v; some (utf8 text)
