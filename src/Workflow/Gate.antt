-- ===== src/Workflow/Gate.antt =====
-- The human-gate half of control-plane/internal/workflow/graph.go: the response schemas that the
-- Dashboard can render, and their localized presentation.
use iterabase_mono.Common.{
  ℕ, ◌+◌, String, Bool, false, not, Option, none, some, List, [], ◌∷◌, ◌==◌, ◌==ₛ◌, length,
  contains, if◌then◌else◌,
}
use iterabase_mono.Common.Dict.{lookup, insert, sort_keys, has_key}
use iterabase_mono.Common.Result.{Result, ok, err, ◌>>=◌, ◌>>◌, reject_if, each, each_at, or_fail}
use iterabase_mono.Workflow.Json.{
  Json, Raw, is_trivial, value, decode_map, decode_string, decode_bool, decode_list, decode_strings,
  struct_fields, member, map_into, list_into,
}
use iterabase_mono.Workflow.Spec.{
  LocalizedText, is_incomplete, HumanGate, HumanGateFieldPresentation, Node, PresentationError,
}
use iterabase_mono.Workflow.Spec

abbrev Check : Type 0
Check = Result PresentationError (Unit {0})

abbrev pub dashboard_keywords : List String
dashboard_keywords =
    "$comment" ∷ "$id" ∷ "$schema" ∷ "additionalProperties" ∷ "default" ∷ "deprecated"
    ∷ "description" ∷ "examples" ∷ "properties" ∷ "readOnly" ∷ "required" ∷ "title" ∷ "type"
    ∷ "writeOnly" ∷ []

abbrev pub property_keywords : List String
property_keywords =
    "$comment" ∷ "$id" ∷ "$schema" ∷ "default" ∷ "deprecated" ∷ "description" ∷ "enum" ∷ "examples"
    ∷ "readOnly" ∷ "title" ∷ "type" ∷ "writeOnly" ∷ []

abbrev pub property_types : List String
property_types = "string" ∷ "boolean" ∷ "number" ∷ "integer" ∷ "object" ∷ "array" ∷ []

unfoldable pub response_schema_properties : Raw → Result PresentationError (List (String × Json))
unfolding member map_into
response_schema_properties raw = if is_trivial raw then ok [] else do
  fs ← or_fail (struct_fields raw) Spec.bad_properties
  or_fail (member map_into "properties" fs []) Spec.bad_properties

-- `json.Unmarshal(property["type"], &propertyType)` and the switch on it.
check_property_type : String → Option String → Check
check_property_type key none = err (Spec.property_untyped key)
check_property_type key (some t) =
    reject_if (not (contains property_types t)) (Spec.property_type key)

check_enum : String → Option (List Json) → Check
check_enum key none = err (Spec.enum_empty key)
check_enum key (some []) = err (Spec.enum_empty key)
check_enum key (some (_ ∷ _)) = ok tt

unfoldable pub validate_dashboard_response_property : String × Json → Check
unfolding each check_property_type check_enum
validate_dashboard_response_property (key, raw) = do
  property ← or_fail (decode_map (value raw)) (Spec.property_not_object key)
  each
      (λ (e : String × Json).
        reject_if (not (contains property_keywords e.0)) (Spec.property_keyword key e.0))
      property
  elim (lookup "enum" property) [
    | some enum ↦ check_enum key (decode_list enum)
    | none ↦ check_property_type key (decode_string (lookup "type" property))
  ]

unfoldable pub check_required : List (String × Json) → Option Json → Check
unfolding each
check_required properties none = ok tt
check_required properties (some raw) = do
  required ← or_fail (decode_strings raw) Spec.bad_required
  each (λ (key : String). reject_if (not (has_key properties key)) (Spec.required_undeclared key))
      required

check_additional : Option Json → Check
check_additional none = ok tt
check_additional (some raw) = or_fail (decode_bool raw) Spec.bad_additional >>= λ _. ok tt

is_object : Option String → Bool
is_object none = false
is_object (some t) = t ==ₛ "object"

unfoldable pub validate_dashboard_response_schema : Raw → Check
unfolding each check_required check_additional is_object validate_dashboard_response_property
    response_schema_properties
validate_dashboard_response_schema raw = if is_trivial raw then ok tt else do
  schema ← or_fail (decode_map raw) Spec.must_be_object
  each
      (λ (e : String × Json).
        reject_if (not (contains dashboard_keywords e.0)) (Spec.keyword_unsupported e.0))
      schema
  reject_if (not (is_object (decode_string (lookup "type" schema)))) Spec.type_not_object
  properties ← response_schema_properties raw
  check_required properties (lookup "required" schema)
  check_additional (lookup "additionalProperties" schema)
  each validate_dashboard_response_property properties

unfoldable pub validate_localized_labels : List LocalizedText → Check
unfolding each_at
validate_localized_labels labels =
    each_at (λ i label. reject_if (is_incomplete label) (Spec.PresentationError.label_incomplete i))
      0 labels

unfoldable pub index_human_gate_fields :
    ℕ
    → List HumanGateFieldPresentation
    → List (String × HumanGateFieldPresentation)
    → Result PresentationError (List (String × HumanGateFieldPresentation))
index_human_gate_fields i [] indexed = ok indexed
index_human_gate_fields i (f ∷ fields) indexed = do
  reject_if (f.key ==ₛ "") (Spec.field_key_empty i)
  reject_if (has_key indexed f.key) (Spec.field_duplicated f.key)
  reject_if (is_incomplete f.label) (Spec.field_label_incomplete f.key)
  index_human_gate_fields (i + 1) fields (insert f.key f indexed)

unfoldable pub validate_human_gate_field_options : String → Json → List LocalizedText → Check
unfolding member list_into validate_localized_labels
validate_human_gate_field_options key raw labels = do
  fs ← or_fail (struct_fields (value raw)) (Spec.property_not_object key)
  enum ← or_fail (member list_into "enum" fs []) (Spec.property_not_object key)
  reject_if (not (length labels == length enum)) (Spec.option_count key)
  validate_localized_labels labels

check_field_options : List (String × HumanGateFieldPresentation) → String × Json → Check
unfolding validate_human_gate_field_options
check_field_options fields (key, property) = do
  f ← or_fail (lookup key fields) (Spec.field_missing key)
  validate_human_gate_field_options key property f.options

unfoldable pub validate_human_gate_presentation : List String → HumanGate → Check
unfolding each validate_localized_labels response_schema_properties index_human_gate_fields
    check_field_options
validate_human_gate_presentation outcomes gate = do
  reject_if (not (length gate.outcome_labels == length outcomes)) Spec.outcome_count
  validate_localized_labels gate.outcome_labels
  properties ← response_schema_properties gate.response_schema
  fields ← index_human_gate_fields 0 gate.field_presentations []
  each
      (λ (e : String × HumanGateFieldPresentation).
        reject_if (not (has_key properties e.0)) (Spec.field_unknown e.0))
      fields
  each (check_field_options fields) (sort_keys properties)
