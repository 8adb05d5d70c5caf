-- ===== src/Work/Scenarios.antt =====
-- A small graph: an agent drafts, a person approves or sends the draft back.
use iterabase_mono.Common.{String, ◌≡◌, refl, true, false, none, some, [], ◌∷◌, All}
use iterabase_mono.Common.Dict.{lookup, insert, insert_sorted}
use iterabase_mono.Workflow.Gate.{
  validate_dashboard_response_schema, validate_human_gate_presentation,
}
use iterabase_mono.Workflow.Walk.{walk}
use iterabase_mono.Common.Result.{ok}
use iterabase_mono.Workflow.Json.{Json, decode_map, value, object, string, boolean, field, end}
use iterabase_mono.Workflow.Spec.{LocalizedText, Node, Spec}
use iterabase_mono.Workflow.Validate.{Env, link}
use iterabase_mono.Workflow.Depth.{depth}
use iterabase_mono.Workflow.Results.{collect_result_schema_fields}
use iterabase_mono.Workflow.Collected.{collect_result_schema_fields_lem}
use iterabase_mono.Workflow.Spec.{PresentationError}
use iterabase_mono.Common.{◌<◌, ◌≢◌, arith}
use iterabase_mono.Common.Result.{err}
use iterabase_mono.Workflow.Contract.{validate_graph}
use iterabase_mono.Work.Routing.{route, next, find_node}
use iterabase_mono.Work.Routed.{IsRouted, route_total, route_edges}
use iterabase_mono.Work.Reachable.{Runs, Ends, every_node_reachable, every_node-Ends}

abbrev pub text : String → LocalizedText
text s = record { en = s; pt = s }

abbrev pub draft : Node
draft = record {
  key = "draft";
  label = text "Draft";
  kind = "agent_task";
  prompt = "Write the letter.";
  model_ref = "";
  skills = "writing" ∷ [];
  capabilities = "mail.search" ∷ [];
  workspace_tools = true;
  timeout = "10m";
  outcomes = "ready" ∷ "hopeless" ∷ [];
  output_schema = none;
  result_presentation = some (record {
    outcomes = record { outcome = "hopeless"; summary = text "No letter" } ∷ [];
    fields = [];
  });
  human_gate = none;
}

-- `{"type": "object", "properties": {"approved": {"type": "boolean"}}, "additionalProperties": false}`
abbrev pub review_schema : Json
review_schema = object (
    field "type" (string "object") (
      field "properties"
        (object (field "approved" (object (field "type" (string "boolean") end)) end))
        (field "additionalProperties" (boolean false) end)))

abbrev pub review : Node
review = record {
  key = "review";
  label = text "Review";
  kind = "human_gate";
  prompt = "";
  model_ref = "";
  skills = [];
  capabilities = [];
  workspace_tools = false;
  timeout = "";
  outcomes = "approve" ∷ "revise" ∷ [];
  output_schema = none;
  result_presentation = some (record {
    outcomes = record { outcome = "approve"; summary = text "Approved" } ∷ [];
    fields = record { path = "approved" ∷ []; label = text "Approved"; options = [] } ∷ [];
  });
  human_gate = some (record {
    type = "approval";
    title = text "Approve the letter";
    description = text "Read the draft.";
    response_schema = value review_schema;
    outcome_labels = text "Approve" ∷ text "Revise" ∷ [];
    field_presentations = record { key = "approved"; label = text "Approved"; options = [] } ∷ [];
  });
}

abbrev pub letters : Spec
letters = record {
  skill_names = "writing" ∷ [];
  capability_tools = "mail.search" ∷ [];
  default_model_ref = "small";
  graph = record {
    entry_node = "draft";
    max_transitions = 2;
    nodes = draft ∷ review ∷ [];
    edges =
        record { source = "draft"; outcome = "ready"; target = "review" }
        ∷ record { source = "review"; outcome = "revise"; target = "draft" }
        ∷ [];
    terminal_outcomes =
        record { node = "review"; outcome = "approve" }
        ∷ record { node = "draft"; outcome = "hopeless" }
        ∷ [];
  };
}

abbrev pub env : Env
env = record {
  compiles = λ schema. true;
  positive_duration = λ d. true;
  float_value = λ literal. none;
}

pub letters_valid : validate_graph env letters ≡ ok tt
unfolding validate_graph lookup insert validate_dashboard_response_schema decode_map
    validate_human_gate_presentation insert_sorted walk link
letters_valid = refl

route_total_example : IsRouted letters.graph "draft" "ready"
route_total_example =
    route_total env letters letters_valid "draft" draft "ready" (unfold find_node in refl) refl

route_edges_example :
    All (λ e. route letters.graph e.source e.outcome ≡ next e.target) letters.graph.edges
route_edges_example = route_edges env letters letters_valid

every_node_reachable_example : Runs letters.graph "draft" "review"
every_node_reachable_example =
    every_node_reachable env letters letters_valid "review" review (unfold find_node in refl)

every_node-Ends_example : Ends letters.graph "draft"
every_node-Ends_example =
    every_node-Ends env letters letters_valid "draft" draft (unfold find_node in refl)

review_depth : depth review_schema < 4
unfolding depth
review_depth = omega arith

collect_result_schema_fields_lem_example :
    collect_result_schema_fields 4 review_schema [] [] ≢ err PresentationError.out_of_fuel
collect_result_schema_fields_lem_example =
    collect_result_schema_fields_lem 4 review_schema [] [] review_depth
