-- ===== src/Workflow/Spec.antt =====
-- The canonical spec of control-plane/internal/workflow/store.go, as far as graph validation and
-- routing read it, and the errors of graph.go with the operands that tell them apart.
use iterabase_mono.Common.{ℕ, String, Bool, ◌||◌, Option, List, ◌==ₛ◌}
use iterabase_mono.Workflow.Json.{Raw}

pub record LocalizedText : Type 0 where
  pub en : String
  pub pt : String

-- `label.EN == "" || label.PT == ""`
abbrev pub is_incomplete : LocalizedText → Bool
is_incomplete t = t.en ==ₛ "" || t.pt ==ₛ ""

pub record ResultValuePresentation : Type 0 where
  pub value : Raw
  pub label : LocalizedText

pub record ResultFieldPresentation : Type 0 where
  pub path : List String
  pub label : LocalizedText
  pub options : List ResultValuePresentation

pub record ResultOutcomePresentation : Type 0 where
  pub outcome : String
  pub summary : LocalizedText

pub record ResultPresentation : Type 0 where
  pub outcomes : List ResultOutcomePresentation
  pub fields : List ResultFieldPresentation

pub record HumanGateFieldPresentation : Type 0 where
  pub key : String
  pub label : LocalizedText
  pub options : List LocalizedText

pub record HumanGate : Type 0 where
  pub type : String
  pub title : LocalizedText
  pub description : LocalizedText
  pub response_schema : Raw
  pub outcome_labels : List LocalizedText
  pub field_presentations : List HumanGateFieldPresentation

-- `output_schema` is `none` where the Go field is nil.
pub record Node : Type 0 where
  pub key : String
  pub label : LocalizedText
  pub kind : String
  pub prompt : String
  pub model_ref : String
  pub skills : List String
  pub capabilities : List String
  pub workspace_tools : Bool
  pub timeout : String
  pub outcomes : List String
  pub output_schema : Option Raw
  pub result_presentation : Option ResultPresentation
  pub human_gate : Option HumanGate

pub record Edge : Type 0 where
  pub source : String
  pub outcome : String
  pub target : String

pub record TerminalOutcome : Type 0 where
  pub node : String
  pub outcome : String

-- `max_transitions` is an int32; a negative one fails validation as 0 does.
pub record Graph : Type 0 where
  pub entry_node : String
  pub max_transitions : ℕ
  pub nodes : List Node
  pub edges : List Edge
  pub terminal_outcomes : List TerminalOutcome

-- Skills and capabilities by name.
pub record Spec : Type 0 where
  pub skill_names : List String
  pub capability_tools : List String
  pub default_model_ref : String
  pub graph : Graph

abbrev pub agent_task : String
agent_task = "agent_task"

abbrev pub human_gate_kind : String
human_gate_kind = "human_gate"

pub data PresentationError : Type 0 where
  must_be_object type_not_object bad_properties bad_required bad_additional : PresentationError
  keyword_unsupported required_undeclared property_not_object : String → PresentationError
  property_keyword : String → String → PresentationError
  enum_empty property_untyped property_type : String → PresentationError
  outcome_count fields_without_schema incomplete_presentation : PresentationError
  label_incomplete : ℕ → PresentationError
  field_key_empty path_empty segment_empty option_unmatched option_label : ℕ → PresentationError
  field_duplicated field_label_incomplete field_unknown field_missing : String → PresentationError
  option_count : String → PresentationError
  path_duplicated path_label path_unknown path_missing : List String → PresentationError
  keyword_in_schema array_without_items item_not_object item_keyword untyped : PresentationError
  options_without_enum enum_without_values enum_count type_unsupported : PresentationError
  properties_required object_required additional_allowed out_of_fuel : PresentationError

pub data GraphError : Type 0 where
  entry_required bad_max_transitions no_nodes no_terminals reserved_capability : GraphError
  key_required label_incomplete outcomes_empty prompt_required gate_forbidden : ℕ → GraphError
  model_required bad_timeout schema_invalid agent_fields_forbidden : ℕ → GraphError
  output_schema_forbidden gate_required title_incomplete description_incomplete : ℕ → GraphError
  outcome_empty : ℕ → ℕ → GraphError
  key_duplicated outcome_duplicated skill_duplicated skill_unknown : ℕ → String → GraphError
  capability_duplicated capability_unknown gate_type kind_unknown : ℕ → String → GraphError
  gate_schema gate_presentation : ℕ → PresentationError → GraphError
  entry_unknown : String → GraphError
  edge_source edge_target edge_outcome terminal_node terminal_outcome : ℕ → String → GraphError
  route_duplicated route_terminal uncovered : String → String → GraphError
  result_forbidden result_required : String → GraphError
  result_outcomes : String → PresentationError → GraphError
  result_fields : String → PresentationError → GraphError
  unreachable no_exit : String → GraphError
