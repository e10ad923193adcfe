-- ===== src/Json.antt =====
-- The values that `json.loads` gives and that a request carries. A dictionary is the list of its
-- items in their order; a text is the list of its code points; of a float the text is kept.
pub mod Laws
use oversight.Prelude.{
  Bool, true, false, not, ◌&&◌, Option, none, some, [], Bytes, beq, ℤ, pos, negsuc, codes, ◌==◌,
  if◌then◌else◌,
}

mutual
  pub data Json : Type 0 where
    null : Json
    boolean : Bool → Json
    int : ℤ → Json
    float : Bytes → Json
    str : Bytes → Json
    list : Items → Json
    dict : Fields → Json

  pub data Items : Type 0 where
    nil : Items
    cons : Json → Items → Items

  pub data Fields : Type 0 where
    end : Fields
    field : Bytes → Json → Fields → Fields

-- `d.get(name)`
unfoldable pub get : Bytes → Fields → Option Json
get name end = none
get name (field k v fs) = if beq k name then some v else get name fs

unfoldable pub get_or : Bytes → Json → Fields → Json
get_or name default fs = elim (get name fs) [ none ↦ default | some v ↦ v ]

-- `if v:`
unfoldable pub truthy : Json → Bool
truthy null = false
truthy (boolean b) = b
truthy (int (pos n)) = not (n == 0)
truthy (int (negsuc n)) = true
truthy (float text) = not (beq text (codes "0.0")) && not (beq text (codes "-0.0"))
truthy (str text) = not (beq text [])
truthy (list nil) = false
truthy (list (cons v vs)) = true
truthy (dict end) = false
truthy (dict (field k v fs)) = true

-- `v == text`
unfoldable pub is_text : Bytes → Json → Bool
is_text text (str s) = beq s text
is_text text v = false
