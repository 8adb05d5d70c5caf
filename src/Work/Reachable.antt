-- ===== src/Work/Reachable.antt =====
-- Which nodes a run of an accepted graph visits: ValidateGraph of
-- control-plane/internal/workflow/graph.go walks its own adjacency lists, a run follows `route` of
-- control-plane/internal/work/graph.go.
use iterabase_mono.Common.{
  String, ◌≡◌, refl, sym, ◌∙◌, inl, inr, true, ◌||◌, ◌&&◌, some, List, [], ◌∷◌, contains,
  contains-append, All, arith, Bool-cases, ◌==ₛ◌,
}
use mathlib.Core.Path.{subst₂}
use iterabase_mono.Common.Dict.{lookup, All-lookup}
use iterabase_mono.Common.Result.{ok}
use iterabase_mono.Workflow.Spec.{Node, Edge, TerminalOutcome, Graph, Spec}
use iterabase_mono.Workflow.Walk.{Adjacency, neighbours, walk}
use iterabase_mono.Workflow.Walk.Correct.{Reaches, here, step, contains-walk}
use iterabase_mono.Workflow.Validate.{Env}
use iterabase_mono.Workflow.Contract.{can_terminate, validate_graph, no_links}
use iterabase_mono.Workflow.Routes.{
  has_edge, neighbours-adj, neighbours-reverse, both_eq, both_refl,
}
use iterabase_mono.Workflow.Accepted.{Stages, accepted-Stages}
use iterabase_mono.Work.Routing.{find_node, is_terminal, terminal, next, route}
use iterabase_mono.Work.Routed.{lookup_node, edges_followed}

-- A run that starts at `u` may be at `w`.
pub data Runs (g : Graph) (u : String) : String → Type 0 where
  start : Runs g u u
  turn : {v w : String} (outcome : String) → Runs g u v → route g v outcome ≡ next w → Runs g u w

first_turn :
    (g : Graph) (u v : String) (outcome : String)
    → route g u outcome ≡ next v
    → (w : String) → Runs g v w
    → Runs g u w
first_turn g u v outcome h w start = turn outcome start h
first_turn g u v outcome h w (turn o r e) = turn o (first_turn g u v outcome h _ r) e

-- A run that starts at `u` may end.
unfoldable pub Ends : Graph → String → Type 0
Ends g u = (w : String) × (outcome : String) × Runs g u w × (route g w outcome ≡ terminal)

edge_turn :
    (g : Graph) (es : List Edge) (u v : String)
    → All (λ e. route g e.source e.outcome ≡ next e.target) es
    → has_edge es u v ≡ true
    → (outcome : String) × (route g u outcome ≡ next v)
unfolding has_edge
edge_turn g [] u v h m = cc
edge_turn g (e ∷ es) u v h m = elim (Bool-cases (e.source ==ₛ u && e.target ==ₛ v)) [
  | inl same ↦
      let (p, q) = both_eq _ _ _ _ same in
      (e.outcome, subst₂ (λ x y. route g x e.outcome ≡ next y) p q h.0)
  | inr other ↦ edge_turn g es u v h.1 (rw other at m)
]

terminal_route :
    (g : Graph) (t : TerminalOutcome) (ts : List TerminalOutcome)
    → is_terminal ts t.node t.outcome ≡ true
    → g.terminal_outcomes ≡ ts
    → route g t.node t.outcome ≡ terminal
unfolding route
terminal_route g t ts h e = rw (e, h)

-- A name that some reverse walk visits is on a reverse path from a terminal node.
exits_at :
    (reverse : Adjacency) (ts : List TerminalOutcome) (a : String)
    → contains (can_terminate reverse ts) a ≡ true
    → (t : TerminalOutcome) × (is_terminal ts t.node t.outcome ≡ true) × Reaches reverse t.node a
unfolding can_terminate is_terminal
exits_at reverse [] a h = cc
exits_at reverse (t ∷ ts) a h =
    let m : (contains (walk t.node reverse) a || contains (can_terminate reverse ts) a) ≡ true =
      sym (contains-append (walk t.node reverse) (can_terminate reverse ts) a) ∙ h in
    elim (Bool-cases (contains (walk t.node reverse) a)) [
      | inl now ↦ (t, rw both_refl, (contains-walk reverse t.node a).0 now)
      | inr later ↦
          let (s, is, r) = exits_at reverse ts a (rw later at m) in (s, rw is (ground arith), r)
    ]

module _ (env : Env) (spec : Spec) (st : Stages env spec) where
  abbrev g : Graph
  g = spec.graph

  follow :
      (u v : String)
      → has_edge g.edges u v ≡ true
      → (outcome : String) × (route g u outcome ≡ next v)
  follow u v = edge_turn g g.edges u v (edges_followed env spec st)

  reaches-Runs : (a : String) → Reaches st.links.adj g.entry_node a → Runs g g.entry_node a
  unfolding neighbours lookup
  reaches-Runs a here = start
  reaches-Runs a (step {u} r h) =
      let m = sym (neighbours-adj st.nodes 0 g.edges no_links st.links st.edges_ok u a) ∙ h in
      let (outcome, e) = follow u a m in turn outcome (reaches-Runs u r) e

  reverse-Runs : (t a : String) → Reaches st.links.reverse t a → Runs g a t
  unfolding neighbours lookup
  reverse-Runs t a here = start
  reverse-Runs t a (step {u} r h) =
      let m = sym (neighbours-reverse st.nodes 0 g.edges no_links st.links st.edges_ok a u) ∙ h in
      let (outcome, e) = follow a u m in first_turn g a u outcome e t (reverse-Runs t u r)

  node_reached :
      (key : String) (n : Node) → find_node g.nodes key ≡ some n → Runs g g.entry_node key
  node_reached key n found =
      let c =
        All-lookup (λ e. contains (walk g.entry_node st.links.adj) e.0 ≡ true) st.nodes key n
          st.reachable (lookup_node env spec st key ∙ found) in
      reaches-Runs key ((contains-walk st.links.adj g.entry_node key).0 c)

  node-Ends : (key : String) (n : Node) → find_node g.nodes key ≡ some n → Ends g key
  unfolding Ends
  node-Ends key n found =
      let c =
        All-lookup (λ e. contains (can_terminate st.links.reverse g.terminal_outcomes) e.0 ≡ true)
          st.nodes key n st.exits (lookup_node env spec st key ∙ found) in
      let (t, is, r) = exits_at st.links.reverse g.terminal_outcomes key c in
      (t.node, t.outcome, reverse-Runs t.node key r, terminal_route g t g.terminal_outcomes is refl)

-- In an accepted graph the router can bring a run from the entry node to every node.
pub every_node_reachable :
    (env : Env) (spec : Spec)
    → validate_graph env spec ≡ ok tt
    → (key : String) (n : Node) → find_node spec.graph.nodes key ≡ some n
    → Runs spec.graph spec.graph.entry_node key
every_node_reachable env spec h = node_reached env spec (accepted-Stages env spec h)

-- In an accepted graph the router can bring a run from every node to a terminal outcome.
pub every_node-Ends :
    (env : Env) (spec : Spec)
    → validate_graph env spec ≡ ok tt
    → (key : String) (n : Node) → find_node spec.graph.nodes key ≡ some n
    → Ends spec.graph key
every_node-Ends env spec h = node-Ends env spec (accepted-Stages env spec h)
