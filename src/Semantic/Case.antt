-- ===== src/Semantic/Case.antt =====
-- oversight_core/semantic.py, `_case_preserve`. The words are runs of the letters A to Z and a to
-- z, and on those `str.lower`, `str.upper` and `str.isupper` are the functions below.
pub mod Laws
use oversight.Prelude.{
  ℕ, ◌+◌, ◌-◌, Bool, true, false, not, ◌&&◌, ◌||◌, List, [], ◌∷◌, ◌++◌, map, leb, if◌then◌else◌,
  take, drop,
}

-- A text is the list of its code points.
abbrev pub Text : Type 0
Text = List ℕ

abbrev pub is_upper : ℕ → Bool
is_upper c = leb b'A' c && leb c b'Z'

abbrev pub is_lower : ℕ → Bool
is_lower c = leb b'a' c && leb c b'z'

-- `[A-Za-z]`
abbrev pub is_letter : ℕ → Bool
is_letter c = is_upper c || is_lower c

abbrev pub lower_char : ℕ → ℕ
lower_char c = if is_upper c then c + 32 else c

abbrev pub upper_char : ℕ → ℕ
upper_char c = if is_lower c then c - 32 else c

unfoldable pub lower : Text → Text
lower = map lower_char

unfoldable pub upper : Text → Text
upper = map upper_char

unfoldable pub all : (ℕ → Bool) → Text → Bool
all p [] = true
all p (c ∷ cs) = p c && all p cs

-- `str.isupper`: a cased character, and none in lower case.
unfoldable pub isupper : Text → Bool
unfolding all
isupper w = not (all (λ c. not (is_upper c)) w) && all (λ c. not (is_lower c)) w

unfoldable pub case_preserve : Text → Text → Text
unfolding lower upper isupper
case_preserve replacement original =
    if isupper original
    then upper replacement
    else if isupper (take 1 original)
    then upper (take 1 replacement) ++ drop 1 replacement
    else lower replacement
