-- ===== src/Workflow/ResultFields.antt =====
-- The checks of a result presentation against its schema, in
-- control-plane/internal/workflow/graph.go.
use iterabase_mono.Common.{
  ℕ, suc, ◌+◌, String, Bool, true, false, not, ◌&&◌, Option, none, some, List, [], ◌∷◌, ◌==◌,
  length, contains, if◌then◌else◌,
}
use iterabase_mono.Common.Dict.{lookup, is_none}
use iterabase_mono.Common.Result.{Result, ok, err, ◌>>=◌, ◌>>◌, reject_if, each, or_fail}
use iterabase_mono.Workflow.Json.{
  Json, Raw, is_trivial, blank, malformed, value, decode_map, decode_list,
}
use iterabase_mono.Workflow.Values.{equal_json}
use iterabase_mono.Workflow.Results.{
  effective_result_schema, collect_result_schema_fields, path_lookup, path_insert,
}
use iterabase_mono.Workflow.Depth.{depth}
use iterabase_mono.Workflow.Spec.{
  is_incomplete, ResultValuePresentation, ResultFieldPresentation, ResultOutcomePresentation,
  PresentationError,
}
use iterabase_mono.Workflow.Spec

abbrev Check : Type 0
Check = Result PresentationError (Unit {0})

abbrev result_types : List String
result_types = "string" ∷ "boolean" ∷ "number" ∷ "integer" ∷ "object" ∷ []

-- The enum values, each with its `matched` flag.
abbrev Flags : Type 0
Flags = List (Bool × Json)

abbrev unmatched : List Json → Flags
unmatched [] = []
unmatched (v ∷ vs) = (false, v) ∷ unmatched vs

module _ (float_value : String → Option ℕ) where
  -- The first unmatched value that equals the option's, marked.
  unfoldable pub match_value : Raw → List (Bool × Json) → Option (List (Bool × Json))
  unfolding equal_json
  match_value v [] = none
  match_value v ((m, w) ∷ rest) =
      if not m && equal_json float_value v (value w)
      then some ((true, w) ∷ rest)
      else elim (match_value v rest) [ none ↦ none | some rest' ↦ some ((m, w) ∷ rest') ]

  unfoldable pub match_options : ℕ → List ResultValuePresentation → List (Bool × Json) → Check
  unfolding match_value
  match_options i [] flags = ok tt
  match_options i (o ∷ os) flags = do
    reject_if (is_incomplete o.label) (Spec.option_label i)
    flags' ← or_fail (match_value o.value flags) (Spec.option_unmatched i)
    match_options (i + 1) os flags'

  check_options : List ResultValuePresentation → Option (List Json) → Check
  unfolding match_options
  check_options options none = err Spec.enum_without_values
  check_options options (some []) = err Spec.enum_without_values
  check_options options (some (v ∷ vs)) = do
    reject_if (not (length options == suc (length vs))) Spec.enum_count
    match_options 0 options (unmatched (v ∷ vs))

  unfoldable pub validate_result_options : Option Json → List ResultValuePresentation → Check
  unfolding check_options
  validate_result_options none options =
      reject_if (not (length options == 0)) Spec.options_without_enum
  validate_result_options (some enum) options = check_options options (decode_list enum)

  unfoldable pub validate_result_field_schema : Json → List ResultValuePresentation → Check
  unfolding effective_result_schema validate_result_options
  validate_result_field_schema raw options = do
    e ← effective_result_schema raw
    schema ← or_fail (decode_map (value e.schema)) Spec.must_be_object
    validate_result_options (lookup "enum" schema) options
    reject_if (not e.has_enum && not (contains result_types e.type)) Spec.type_unsupported

  unfoldable pub index_result_presentations :
      ℕ
      → List ResultFieldPresentation
      → List (List String × Json)
      → List (List String × Unit {0})
      → Result PresentationError (List (List String × Unit {0}))
  unfolding each validate_result_field_schema
  index_result_presentations i [] schemas indexed = ok indexed
  index_result_presentations i (f ∷ fields) schemas indexed = do
    reject_if (length f.path == 0) (Spec.path_empty i)
    reject_if (contains f.path "") (Spec.segment_empty i)
    reject_if (not (is_none (path_lookup f.path indexed))) (Spec.path_duplicated f.path)
    reject_if (is_incomplete f.label) (Spec.path_label f.path)
    schema ← or_fail (path_lookup f.path schemas) (Spec.path_unknown f.path)
    validate_result_field_schema schema f.options
    index_result_presentations (i + 1) fields schemas (path_insert f.path tt indexed)

  unfoldable pub validate_result_schema : Json → List ResultFieldPresentation → Check
  unfolding each collect_result_schema_fields index_result_presentations
  validate_result_schema raw fields = do
    schemas ← collect_result_schema_fields (suc (depth raw)) raw [] []
    indexed ← index_result_presentations 0 fields schemas []
    reject_if (not (length indexed == length schemas)) Spec.incomplete_presentation
    each
        (λ (e : List String × Json).
          reject_if (is_none (path_lookup e.0 indexed)) (Spec.path_missing e.0))
        schemas

  unfoldable pub validate_result_fields : Raw → List ResultFieldPresentation → Check
  unfolding validate_result_schema
  validate_result_fields blank fields =
      reject_if (not (length fields == 0)) Spec.fields_without_schema
  validate_result_fields malformed fields = err Spec.must_be_object
  validate_result_fields (value j) fields =
      if is_trivial (value j)
      then reject_if (not (length fields == 0)) Spec.fields_without_schema
      else validate_result_schema j fields

-- `terminal` is the set of a node's terminal outcomes.
unfoldable pub check_outcome_presentations :
    ℕ
    → List String
    → List ResultOutcomePresentation
    → List String
    → Result PresentationError (Unit {0})
check_outcome_presentations i terminal [] seen = ok tt
check_outcome_presentations i terminal (p ∷ ps) seen = do
  reject_if (not (contains terminal p.outcome)) (Spec.field_unknown p.outcome)
  reject_if (contains seen p.outcome) (Spec.field_duplicated p.outcome)
  reject_if (is_incomplete p.summary) (Spec.field_label_incomplete p.outcome)
  check_outcome_presentations (i + 1) terminal ps (p.outcome ∷ seen)

unfoldable pub validate_result_outcome_presentations :
    List String → List ResultOutcomePresentation → Result PresentationError (Unit {0})
unfolding check_outcome_presentations
validate_result_outcome_presentations terminal presentations = do
  reject_if (not (length presentations == length terminal)) Spec.outcome_count
  check_outcome_presentations 0 terminal presentations []
