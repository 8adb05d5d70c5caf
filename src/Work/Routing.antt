-- ===== src/Work/Routing.antt =====
-- `findNode` of control-plane/internal/work/store.go and `route` of control-plane/internal/work/graph.go.
-- `route`'s three results are one sum: a terminal outcome, the next node, or no route.
use iterabase_mono.Common.{
  String, Bool, false, ◌&&◌, ◌||◌, Option, none, some, List, [], ◌∷◌, ◌==ₛ◌, if◌then◌else◌,
}
use iterabase_mono.Workflow.Spec.{Node, Edge, TerminalOutcome, Graph}

unfoldable pub find_node : List Node → String → Option Node
find_node [] key = none
find_node (n ∷ ns) key = if n.key ==ₛ key then some n else find_node ns key

-- The target that the first edge of an outcome names.
unfoldable pub find_edge : List Edge → String → String → Option String
find_edge [] node outcome = none
find_edge (e ∷ es) node outcome =
    if e.source ==ₛ node && e.outcome ==ₛ outcome then some e.target else find_edge es node outcome

unfoldable pub is_terminal : List TerminalOutcome → String → String → Bool
is_terminal [] node outcome = false
is_terminal (t ∷ ts) node outcome =
    t.node ==ₛ node && t.outcome ==ₛ outcome || is_terminal ts node outcome

pub data Routing : Type 0 where
  terminal : Routing
  next : String → Routing
  no_route : Routing

abbrev pub to_target : Option String → Routing
to_target none = no_route
to_target (some target) = next target

unfoldable pub route : Graph → String → String → Routing
unfolding find_edge is_terminal
route g node outcome =
    if is_terminal g.terminal_outcomes node outcome
    then terminal
    else to_target (find_edge g.edges node outcome)
