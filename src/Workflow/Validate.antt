-- ===== src/Workflow/Validate.antt =====
-- ValidateGraph of control-plane/internal/workflow/graph.go. The map `outcomes` has the keys of
-- `nodes`, and each of its sets is the node's own list, so it is read off `nodes`; a route's value
-- is its target, and "$terminal" for a terminal outcome. What the source calls outside the
-- repository is an `Env`: the JSON Schema compiler, `time.ParseDuration` and the float64 of a
-- number literal.

use iterabase_mono.Common.{
  ℕ, ◌+◌, String, Bool, not, ◌&&◌, ◌||◌, Option, none, some, List, [], ◌∷◌, ◌++◌, ◌==◌, ◌==ₛ◌,
  length, contains, if◌then◌else◌,
}
use iterabase_mono.Common.Dict.{lookup, insert, has_key, is_none}
use iterabase_mono.Common.Result.{Result, ok, err, ◌>>=◌, ◌>>◌, reject_if, wrap, or_fail}
use iterabase_mono.Workflow.Json.{Raw, blank, is_trivial}
use iterabase_mono.Workflow.Spec.{
  is_incomplete, Node, Edge, TerminalOutcome, Graph, Spec, HumanGate, ResultPresentation,
  GraphError, PresentationError, agent_task, human_gate_kind,
}
use iterabase_mono.Workflow.Spec
use iterabase_mono.Workflow.Gate.{
  validate_dashboard_response_schema, validate_human_gate_presentation,
}
use iterabase_mono.Workflow.Walk.{Adjacency, neighbours}

pub record Env : Type 0 where
  pub compiles : Raw → Bool
  pub positive_duration : String → Bool
  pub float_value : String → Option ℕ

abbrev pub Check : Type 0
Check = Result GraphError (Unit {0})

abbrev pub raw_of : Option Raw → Raw
raw_of none = blank
raw_of (some raw) = raw

-- Whether `compileSchema` fails.
abbrev pub is_bad_schema : Env → Raw → Bool
is_bad_schema env raw = not (is_trivial raw) && not (env.compiles raw)

unfoldable pub check_outcomes : ℕ → ℕ → List String → List String → Check
check_outcomes i j [] seen = ok tt
check_outcomes i j (name ∷ names) seen = do
  reject_if (name ==ₛ "") (Spec.outcome_empty i j)
  reject_if (contains seen name) (Spec.outcome_duplicated i name)
  check_outcomes i (j + 1) names (name ∷ seen)

unfoldable pub check_node_skills : ℕ → List String → List String → List String → Check
check_node_skills i declared [] seen = ok tt
check_node_skills i declared (name ∷ names) seen = do
  reject_if (contains seen name) (Spec.skill_duplicated i name)
  reject_if (not (contains declared name)) (Spec.skill_unknown i name)
  check_node_skills i declared names (name ∷ seen)

unfoldable pub check_node_capabilities : ℕ → List String → List String → List String → Check
check_node_capabilities i declared [] seen = ok tt
check_node_capabilities i declared (name ∷ names) seen = do
  reject_if (contains seen name) (Spec.capability_duplicated i name)
  reject_if (not (contains declared name)) (Spec.capability_unknown i name)
  check_node_capabilities i declared names (name ∷ seen)

unfoldable pub check_agent_task : Env → Spec → ℕ → Node → Check
unfolding check_node_skills check_node_capabilities
check_agent_task env spec i n = do
  reject_if (n.prompt ==ₛ "") (Spec.prompt_required i)
  reject_if (not (is_none n.human_gate)) (Spec.gate_forbidden i)
  reject_if (n.model_ref ==ₛ "" && spec.default_model_ref ==ₛ "") (Spec.model_required i)
  check_node_skills i spec.skill_names n.skills []
  check_node_capabilities i spec.capability_tools n.capabilities []
  reject_if (not (n.timeout ==ₛ "") && not (env.positive_duration n.timeout)) (Spec.bad_timeout i)
  reject_if (is_bad_schema env (raw_of n.output_schema)) (Spec.schema_invalid i)

abbrev gate_types : List String
gate_types = "information" ∷ "decision" ∷ "approval" ∷ "artifact" ∷ []

unfoldable pub check_human_gate : Env → ℕ → Node → Check
check_human_gate env i n = do
  reject_if
      (not (n.prompt ==ₛ "")
        || not (n.model_ref ==ₛ "")
        || not (length n.skills == 0)
        || not (length n.capabilities == 0)
        || n.workspace_tools)
      (Spec.agent_fields_forbidden i)
  reject_if (not (is_none n.output_schema)) (Spec.output_schema_forbidden i)
  gate ← or_fail n.human_gate (Spec.gate_required i)
  reject_if (not (contains gate_types gate.type)) (Spec.gate_type i gate.type)
  reject_if (is_incomplete gate.title) (Spec.title_incomplete i)
  reject_if (is_incomplete gate.description) (Spec.description_incomplete i)
  reject_if (is_bad_schema env gate.response_schema) (Spec.schema_invalid i)
  wrap (Spec.gate_schema i) (validate_dashboard_response_schema gate.response_schema)
  wrap (Spec.gate_presentation i) (validate_human_gate_presentation n.outcomes gate)

unfoldable pub check_kind : Env → Spec → ℕ → Node → Check
unfolding check_agent_task check_human_gate
check_kind env spec i n =
    if n.kind ==ₛ agent_task
    then check_agent_task env spec i n
    else if n.kind ==ₛ human_gate_kind
    then check_human_gate env i n
    else err (Spec.kind_unknown i n.kind)

abbrev pub Nodes : Type 0
Nodes = List (String × Node)

unfoldable pub check_node : Env → Spec → ℕ → Node → Nodes → Check
unfolding check_outcomes check_kind
check_node env spec i n nodes = do
  reject_if (n.key ==ₛ "") (Spec.key_required i)
  reject_if (has_key nodes n.key) (Spec.key_duplicated i n.key)
  reject_if (is_incomplete n.label) (Spec.label_incomplete i)
  reject_if (length n.outcomes == 0) (Spec.outcomes_empty i)
  check_outcomes i 0 n.outcomes []
  check_kind env spec i n

unfoldable pub check_nodes : Env → Spec → ℕ → List Node → Nodes → Result GraphError Nodes
unfolding check_node
check_nodes env spec i [] nodes = ok nodes
check_nodes env spec i (n ∷ ns) nodes =
    check_node env spec i n nodes >> check_nodes env spec (i + 1) ns (insert n.key n nodes)

abbrev outcomes_of : Option Node → List String
outcomes_of none = []
outcomes_of (some n) = n.outcomes

-- `outcomes[node][outcome]`
abbrev pub declares : Nodes → String → String → Bool
declares nodes node outcome = contains (outcomes_of (lookup node nodes)) outcome

pub record Route : Type 0 where
  pub node : String
  pub outcome : String

abbrev pub Routes : Type 0
Routes = List (Route × String)

abbrev pub route_lookup : Routes → String → String → Option String
route_lookup [] node outcome = none
route_lookup ((r, to) ∷ rs) node outcome =
    if r.node ==ₛ node && r.outcome ==ₛ outcome then some to else route_lookup rs node outcome

pub record Links : Type 0 where
  pub routes : Routes
  pub adj : Adjacency
  pub reverse : Adjacency

-- `adj[from] = append(adj[from], to)`
unfoldable pub link : String → String → Adjacency → Adjacency
link from to adj = insert from (neighbours adj from ++ to ∷ []) adj

unfoldable pub check_edge : Nodes → ℕ → Edge → Links → Check
check_edge nodes i e s = do
  reject_if (not (has_key nodes e.source)) (Spec.edge_source i e.source)
  reject_if (not (has_key nodes e.target)) (Spec.edge_target i e.target)
  reject_if (not (declares nodes e.source e.outcome)) (Spec.edge_outcome i e.outcome)
  reject_if (not (is_none (route_lookup s.routes e.source e.outcome)))
      (Spec.route_duplicated e.source e.outcome)

abbrev pub add_edge : Edge → Links → Links
add_edge e s = record {
  routes = (record { node = e.source; outcome = e.outcome }, e.target) ∷ s.routes;
  adj = link e.source e.target s.adj;
  reverse = link e.target e.source s.reverse;
}

unfoldable pub check_edges : Nodes → ℕ → List Edge → Links → Result GraphError Links
unfolding check_edge
check_edges nodes i [] s = ok s
check_edges nodes i (e ∷ es) s =
    check_edge nodes i e s >> check_edges nodes (i + 1) es (add_edge e s)

unfoldable pub check_terminal : Nodes → ℕ → TerminalOutcome → Routes → Check
check_terminal nodes i t routes = do
  reject_if (not (has_key nodes t.node)) (Spec.terminal_node i t.node)
  reject_if (not (declares nodes t.node t.outcome)) (Spec.terminal_outcome i t.outcome)
  reject_if (not (is_none (route_lookup routes t.node t.outcome)))
      (Spec.route_terminal t.node t.outcome)

unfoldable pub check_terminals :
    Nodes → ℕ → List TerminalOutcome → Routes → Result GraphError Routes
unfolding check_terminal
check_terminals nodes i [] routes = ok routes
check_terminals nodes i (t ∷ ts) routes =
    check_terminal nodes i t routes
    >> check_terminals nodes (i + 1) ts
        ((record { node = t.node; outcome = t.outcome }, "$terminal") ∷ routes)
