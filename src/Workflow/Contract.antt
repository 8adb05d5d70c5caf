-- ===== src/Workflow/Contract.antt =====
-- The end of ValidateGraph of control-plane/internal/workflow/graph.go: the presentations of the
-- terminal nodes, the coverage of every outcome, reachability, and the whole check.
use iterabase_mono.Common.{
  String, not, ◌&&◌, ◌||◌, Option, none, some, List, [], ◌∷◌, ◌++◌, ◌==◌, ◌==ₛ◌, ltb, length,
  contains, if◌then◌else◌,
}
use iterabase_mono.Common.Dict.{sort_keys, has_key, is_none}
use iterabase_mono.Common.Result.{err, ◌>>=◌, ◌>>◌, reject_if, wrap, each}
use iterabase_mono.Workflow.Json.{Raw, blank}
use iterabase_mono.Workflow.Spec.{
  Node, Edge, TerminalOutcome, Graph, Spec, HumanGate, ResultPresentation, GraphError,
  human_gate_kind,
}
use iterabase_mono.Workflow.Spec
use iterabase_mono.Workflow.ResultFields.{
  validate_result_fields, validate_result_outcome_presentations,
}
use iterabase_mono.Workflow.Walk.{Adjacency, walk}
use iterabase_mono.Workflow.Validate.{
  Env, Check, raw_of, Nodes, check_nodes, Routes, route_lookup, Links, check_edges, check_terminals,
}

-- `terminalByNode[key]`
unfoldable pub terminals_of : String → List TerminalOutcome → List String → List String
terminals_of key [] set = set
terminals_of key (t ∷ ts) set =
    terminals_of key ts
      (if t.node ==ₛ key && not (contains set t.outcome) then t.outcome ∷ set else set)

response_of : Option HumanGate → Raw
response_of none = blank
response_of (some gate) = gate.response_schema

unfoldable pub result_schema : Node → Raw
unfolding response_of
result_schema n =
    if n.kind ==ₛ human_gate_kind then response_of n.human_gate else raw_of n.output_schema

check_presented : Env → String → Node → List String → Option ResultPresentation → Check
unfolding validate_result_fields validate_result_outcome_presentations result_schema
check_presented env key n terminal none = err (Spec.result_required key)
check_presented env key n terminal (some p) = do
  wrap (Spec.result_outcomes key) (validate_result_outcome_presentations terminal p.outcomes)
  wrap (Spec.result_fields key) (validate_result_fields env.float_value (result_schema n) p.fields)

unfoldable pub check_result_presentation : Env → List TerminalOutcome → String × Node → Check
unfolding terminals_of check_presented
check_result_presentation env terminals (key, n) =
    let terminal = terminals_of key terminals [] in
    if length terminal == 0
    then reject_if (not (is_none n.result_presentation)) (Spec.result_forbidden key)
    else check_presented env key n terminal n.result_presentation

unfoldable pub validate_result_presentations : Env → Nodes → List TerminalOutcome → Check
unfolding each check_result_presentation
validate_result_presentations env nodes terminals =
    each (check_result_presentation env terminals) (sort_keys nodes)

unfoldable pub check_covered : Routes → String × Node → Check
unfolding each
check_covered routes (key, n) =
    each
      (λ outcome.
        reject_if (is_none (route_lookup routes key outcome)) (Spec.uncovered key outcome))
      n.outcomes

-- The names that a reverse walk from some terminal node visits.
unfoldable pub can_terminate : Adjacency → List TerminalOutcome → List String
can_terminate reverse [] = []
can_terminate reverse (t ∷ ts) = walk t.node reverse ++ can_terminate reverse ts

unfoldable pub check_graph_fields : Spec → Check
check_graph_fields spec = do
  let g = spec.graph
  reject_if (g.entry_node ==ₛ "") Spec.entry_required
  reject_if (ltb g.max_transitions 1 || ltb 10000 g.max_transitions) Spec.bad_max_transitions
  reject_if (length g.nodes == 0) Spec.no_nodes
  reject_if (length g.terminal_outcomes == 0) Spec.no_terminals
  reject_if (contains spec.capability_tools "complete_step") Spec.reserved_capability

abbrev pub no_links : Links
no_links = record { routes = []; adj = []; reverse = [] }

unfoldable pub validate_graph : Env → Spec → Check
unfolding each check_graph_fields check_nodes check_edges check_terminals
    validate_result_presentations check_covered can_terminate
validate_graph env spec = do
  let g = spec.graph
  check_graph_fields spec
  nodes ← check_nodes env spec 0 g.nodes []
  reject_if (not (has_key nodes g.entry_node)) (Spec.entry_unknown g.entry_node)
  links ← check_edges nodes 0 g.edges no_links
  routes ← check_terminals nodes 0 g.terminal_outcomes links.routes
  validate_result_presentations env nodes g.terminal_outcomes
  each (check_covered routes) nodes
  each
      (λ (e : String × Node).
        reject_if (not (contains (walk g.entry_node links.adj) e.0)) (Spec.unreachable e.0))
      nodes
  each
      (λ (e : String × Node).
        reject_if (not (contains (can_terminate links.reverse g.terminal_outcomes) e.0))
          (Spec.no_exit e.0))
      nodes
