-- ===== src/Registry/AttributionExamples.antt =====
-- Queries to the registry with one registered beacon, and an instance of the theorem.
use oversight.Prelude.{◌≡◌, refl, true, Option, none, some, List, [], ◌∷◌, codes}
use oversight.Json.{str, dict, get}
use oversight.Registry.{ok, refused, column, subscript}
use oversight.Registry.Access.{require_operator_auth}
use oversight.Registry.Attribute.{AttributionQuery, Owner, Engine, Attribution, attribute}
use oversight.Registry.Attribution.{Attributes, register-Attributes}
use oversight.Registry.Examples.{
  setup, request, takeover, taken, beaconed, same_token, takeover_answered,
}
use oversight.Registry.Register.{signed_items}
use oversight.Registry.Store.{register}

abbrev first_row : List Owner → Option Owner
first_row [] = none
first_row (owner ∷ owners) = some owner

abbrev engine : Engine
engine = record { fetchone = first_row; newest_first = λ events. events }

abbrev by_token : AttributionQuery
by_token = record {
  token_id = some (codes "t1");
  mark_id = some [];
  layer = none;
  perceptual_hash = none;
}

empty_query_run :
    attribute setup engine (record by_token { token_id = some [] }) request beaconed
    ≡ refused 400 (codes "provide token_id, mark_id, or perceptual_hash")
unfolding attribute
empty_query_run = refl

listed : signed_items (codes "beacons") takeover.manifest ≡ ok (dict same_token ∷ [])
unfolding signed_items get
listed = refl

token_read : subscript (codes "token_id") (dict same_token) ≡ ok (str (codes "t1"))
unfolding subscript
token_read = refl

bound : column (str (codes "t1")) ≡ some (some (codes "t1"))
unfolding column
bound = refl

granted : require_operator_auth setup.operator_token request ≡ ok true
unfolding require_operator_auth
granted = refl

register-Attributes_example :
    (answer : Attribution) × (attribute setup engine by_token request
        (register setup takeover request beaconed).0
      ≡ ok (some answer))
    × Attributes takeover answer
register-Attributes_example =
    register-Attributes setup takeover request beaconed taken takeover_answered
      (dict same_token ∷ []) listed 0 (dict same_token) (str (codes "t1")) (codes "t1") refl
      token_read bound refl engine by_token request true refl granted
