-- ===== src/Workflow/Results.antt =====
-- The result-presentation half of control-plane/internal/workflow/graph.go. A path's key, its JSON
-- text in the source, is the path itself. `collect_result_schema_fields` takes fuel for the nesting
-- of the schema.
use iterabase_mono.Common.{
  ℕ, zero, suc, String, Bool, true, false, not, ◌&&◌, Option, none, some, List, [], ◌∷◌, ◌++◌, ◌==◌,
  ◌==ₛ◌, length, if◌then◌else◌,
}
use iterabase_mono.Common.Dict.{lookup, sort_keys, has_key}
use iterabase_mono.Common.Result.{Result, ok, err, ◌>>=◌, ◌>>◌, reject_if, each, or_fail}
use iterabase_mono.Workflow.Json.{
  Json, value, decode_map, decode_string, struct_fields, member, map_into, text_into, flag_into,
}
use iterabase_mono.Workflow.Spec.{
  is_incomplete, ResultValuePresentation, ResultFieldPresentation, PresentationError,
}
use iterabase_mono.Workflow.Spec

abbrev Check : Type 0
Check = Result PresentationError (Unit {0})

abbrev pub equal_path : List String → List String → Bool
equal_path [] [] = true
equal_path (a ∷ as') (b ∷ bs) = a ==ₛ b && equal_path as' bs
equal_path _ _ = false

-- A map by paths.
module _ {ℓ} {V : Type ℓ} where
  abbrev pub path_lookup : List String → List (List String × V) → Option V
  path_lookup p [] = none
  path_lookup p ((q, v) ∷ m) = if equal_path q p then some v else path_lookup p m

  abbrev pub path_insert : List String → V → List (List String × V) → List (List String × V)
  path_insert p v [] = (p, v) ∷ []
  path_insert p v ((q, w) ∷ m) = if equal_path q p then (p, v) ∷ m else (q, w) ∷ path_insert p v m

abbrev pub composed_keywords : List String
composed_keywords = "$ref" ∷ "allOf" ∷ "anyOf" ∷ "if" ∷ "not" ∷ "oneOf" ∷ []

text_or_empty : Option String → String
text_or_empty none = ""
text_or_empty (some s) = s

abbrev pub schema_type : List (String × Json) → String
unfolding text_or_empty
schema_type schema = text_or_empty (decode_string (lookup "type" schema))

-- The results of `effectiveResultSchema`.
pub record Effective : Type 0 where
  pub schema : Json
  pub type : String
  pub has_enum : Bool

unfoldable pub direct_schema : Json → List (String × Json) → Result PresentationError Effective
unfolding text_or_empty
direct_schema raw schema =
    if has_key schema "enum"
    then ok (record { schema = raw; type = schema_type schema; has_enum = true })
    else if schema_type schema ==ₛ ""
    then err Spec.untyped
    else ok (record { schema = raw; type = schema_type schema; has_enum = false })

unfoldable pub item_schema : Option Json → Result PresentationError Effective
unfolding direct_schema each
item_schema none = err Spec.array_without_items
item_schema (some raw) = do
  schema ← or_fail (decode_map (value raw)) Spec.item_not_object
  each (λ (k : String). reject_if (has_key schema k) Spec.item_keyword) composed_keywords
  direct_schema raw schema

unfoldable pub effective_result_schema : Json → Result PresentationError Effective
unfolding each text_or_empty direct_schema item_schema
effective_result_schema raw = do
  schema ← or_fail (decode_map (value raw)) Spec.must_be_object
  each (λ (k : String). reject_if (has_key schema k) Spec.keyword_in_schema) composed_keywords
  (if not (has_key schema "enum") && schema_type schema ==ₛ "array"
      then item_schema (lookup "items" schema)
      else direct_schema raw schema)

-- `schema` as `collectResultSchemaFields` decodes it.
pub record ObjectSchema : Type 0 where
  pub type : String
  pub properties : List (String × Json)
  pub additional_properties : Option Bool

abbrev pub is_closed : Option Bool → Bool
is_closed (some false) = true
is_closed _ = false

unfoldable pub decode_object_schema : Json → Result PresentationError ObjectSchema
unfolding member map_into
decode_object_schema raw = do
  fs ← or_fail (struct_fields (value raw)) Spec.must_be_object
  type ← or_fail (member text_into "type" fs "") Spec.must_be_object
  properties ← or_fail (member map_into "properties" fs []) Spec.must_be_object
  additional ← or_fail (member flag_into "additionalProperties" fs none) Spec.must_be_object
  ok (record { type = type; properties = properties; additional_properties = additional })

unfoldable pub validate_propertyless_result_root : ObjectSchema → Check
validate_propertyless_result_root s = do
  reject_if (not (s.type ==ₛ "object")) Spec.object_required
  reject_if (not (is_closed s.additional_properties)) Spec.additional_allowed

abbrev pub Schemas : Type 0
Schemas = List (List String × Json)

-- The loop over the sorted keys; `deeper` is the call on a nested object.
unfoldable pub collect_keys :
    (Json → List String → Schemas → Result PresentationError Schemas)
    → List String
    → List (String × Json)
    → Schemas
    → Result PresentationError Schemas
unfolding effective_result_schema
collect_keys deeper prefix [] out = ok out
collect_keys deeper prefix ((key, schema) ∷ rest) out = do
  let path = prefix ++ key ∷ []
  let out' = path_insert path schema out
  e ← effective_result_schema schema
  out'' ← (if not e.has_enum && e.type ==ₛ "object" then deeper e.schema path out' else ok out')
  collect_keys deeper prefix rest out''

unfoldable pub collect_object :
    (Json → List String → Schemas → Result PresentationError Schemas)
    → List String
    → ObjectSchema
    → Schemas
    → Result PresentationError Schemas
unfolding collect_keys sort_keys validate_propertyless_result_root
collect_object deeper prefix s out =
    if length s.properties == 0
    then (if length prefix == 0
        then (validate_propertyless_result_root s >>= λ _. ok out)
        else err Spec.properties_required)
    else do
      reject_if (not (s.type ==ₛ "object")) Spec.object_required
      reject_if (not (is_closed s.additional_properties)) Spec.additional_allowed
      collect_keys deeper prefix (sort_keys s.properties) out

unfoldable pub collect_result_schema_fields :
    ℕ → Json → List String → Schemas → Result PresentationError Schemas
unfolding decode_object_schema collect_object
collect_result_schema_fields zero raw prefix out = err Spec.out_of_fuel
collect_result_schema_fields (suc fuel) raw prefix out = decode_object_schema raw >>= λ s.
    collect_object (collect_result_schema_fields fuel) prefix s out
