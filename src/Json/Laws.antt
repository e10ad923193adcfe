-- ===== src/Json/Laws.antt =====
-- A JSON value that equals a text.
use oversight.Prelude.{◌≡◌, ap, true, Bytes, beq_iff}
use oversight.Json.{Json, null, boolean, int, float, str, list, dict, is_text}

pub is_text-eq-true : (text : Bytes) (v : Json) → is_text text v ≡ true → v ≡ str text
unfolding is_text
is_text-eq-true text (str s) h = ap str ((beq_iff s text).0 h)
is_text-eq-true text null h = absurd (cc)
is_text-eq-true text (boolean b) h = absurd (cc)
is_text-eq-true text (int n) h = absurd (cc)
is_text-eq-true text (float s) h = absurd (cc)
is_text-eq-true text (list vs) h = absurd (cc)
is_text-eq-true text (dict fs) h = absurd (cc)
