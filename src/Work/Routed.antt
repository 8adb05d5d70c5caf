-- ===== src/Work/Routed.antt =====
-- How `route` of control-plane/internal/work/graph.go behaves on a graph that
-- control-plane/internal/workflow/graph.go accepts.
use iterabase_mono.Common.{
  String, ◌≡◌, refl, sym, ◌∙◌, subst, ◌⊎◌, inl, inr, true, false, not, ◌&&◌, Option, none, some,
  List, [], ◌∷◌, contains, All, arith, eq_iff, Bool-cases, Option-cases, ◌==ₛ◌, if◌then◌else◌,
}
use iterabase_mono.Common.Dict.{lookup, has_key, is_none, All-lookup}
use iterabase_mono.Common.Result.{ok, each-eq-ok, reject_if-eq-ok}
use iterabase_mono.Workflow.Spec.{Node, Edge, Graph, Spec}
use iterabase_mono.Workflow.Validate.{Env, Nodes, route_lookup}
use iterabase_mono.Workflow.Contract.{check_covered, validate_graph, no_links}
use iterabase_mono.Workflow.Nodes.{or_else, lookup-check_nodes}
use iterabase_mono.Workflow.Routes.{
  IsLinked, edges-IsLinked, lookup-check_edges, edges_routed, lookup-check_terminals,
  terminals_unrouted,
}
use iterabase_mono.Workflow.Accepted.{Stages, accepted-Stages, All-map}
use iterabase_mono.Work.Routing.{find_node, find_edge, is_terminal, terminal, next, route}

All-contains {ℓ} :
    (P : String → Type ℓ) (xs : List String) (a : String) → All P xs → contains xs a ≡ true → P a
All-contains P [] a h m = cc
All-contains P (x ∷ xs) a h m = elim (Bool-cases (x ==ₛ a)) [
  | inl same ↦ subst P ((eq_iff x a).0 same) h.0
  | inr other ↦ All-contains P xs a h.1 (rw other at m)
]

-- The target of a route is the target of a linked edge.
find_edge_known :
    (nodes : Nodes) (es : List Edge) (node outcome target : String)
    → All (IsLinked nodes) es
    → find_edge es node outcome ≡ some target
    → has_key nodes target ≡ true
unfolding find_edge
find_edge_known nodes [] node outcome target h e = cc
find_edge_known nodes (x ∷ xs) node outcome target h e =
    elim (Bool-cases (x.source ==ₛ node && x.outcome ==ₛ outcome)) [
      | inl same ↦
          let f : some x.target ≡ some target = rw same at e in
          subst (λ k. has_key nodes k ≡ true) (ground (arith, f)) h.0.target_known
      | inr other ↦ find_edge_known nodes xs node outcome target h.1 (rw other at e)
    ]

known_some {ℓ} : {A : Type ℓ} (o : Option A) → not (is_none o) ≡ true → (a : A) × (o ≡ some a)
known_some none h = cc
known_some (some a) h = (a, refl)

module _ (env : Env) (spec : Spec) (st : Stages env spec) where
  abbrev g : Graph
  g = spec.graph

  pub lookup_node : (key : String) → lookup key st.nodes ≡ find_node g.nodes key
  unfolding lookup
  lookup_node key = lookup-check_nodes env spec 0 g.nodes [] st.nodes st.nodes_ok key

  routes_edge :
      (node outcome : String)
      → route_lookup st.links.routes node outcome ≡ find_edge g.edges node outcome
  routes_edge node outcome =
      lookup-check_edges st.nodes 0 g.edges no_links st.links st.edges_ok node outcome

  routes_all :
      (node outcome : String)
      → route_lookup st.routes node outcome
        ≡ or_else
            (find_edge g.edges node outcome)
            (if is_terminal g.terminal_outcomes node outcome then some "$terminal" else none)
  routes_all node outcome =
      lookup-check_terminals st.nodes 0 g.terminal_outcomes st.links.routes st.routes
        st.terminals_ok node outcome
      ∙ rw routes_edge refl

  -- A terminal outcome has no edge, so neither kind of route hides the other.
  terminal_edgeless :
      (node outcome : String)
      → is_terminal g.terminal_outcomes node outcome ≡ true
      → find_edge g.edges node outcome ≡ none
  terminal_edgeless node outcome h =
      sym (routes_edge node outcome)
      ∙ terminals_unrouted st.nodes 0 g.terminal_outcomes st.links.routes st.routes st.terminals_ok
          node outcome h

  pub edge_route :
      (e : Edge)
      → route_lookup st.links.routes e.source e.outcome ≡ some e.target
      → route g e.source e.outcome ≡ next e.target
  unfolding route
  edge_route e h =
      let f : find_edge g.edges e.source e.outcome ≡ some e.target =
        sym (routes_edge e.source e.outcome) ∙ h in
      elim (Bool-cases (is_terminal g.terminal_outcomes e.source e.outcome)) [
        | inl t ↦ let q = terminal_edgeless e.source e.outcome t in cc
        | inr t ↦ rw (t, f)
      ]

  pub edges_followed : All (λ e. route g e.source e.outcome ≡ next e.target) g.edges
  edges_followed =
      All-map g.edges edge_route (edges_routed st.nodes 0 g.edges no_links st.links st.edges_ok)

  covered_lookup :
      (key : String) (n : Node) (outcome : String)
      → find_node g.nodes key ≡ some n
      → contains n.outcomes outcome ≡ true
      → is_none (route_lookup st.routes key outcome) ≡ false
  unfolding check_covered
  covered_lookup key n outcome found listed =
      let c =
        All-lookup (λ e. check_covered st.routes e ≡ ok tt) st.nodes key n st.covered
          (lookup_node key ∙ found) in
      reject_if-eq-ok _ _ (All-contains _ n.outcomes outcome (each-eq-ok _ n.outcomes c) listed)

  target_found :
      (node outcome target : String)
      → find_edge g.edges node outcome ≡ some target
      → (m : Node) × (find_node g.nodes target ≡ some m)
  target_found node outcome target h =
      let k =
        find_edge_known st.nodes g.edges node outcome target
          (edges-IsLinked st.nodes 0 g.edges no_links st.links st.edges_ok) h in
      let (m, e) = known_some (lookup target st.nodes) k in (m, sym (lookup_node target) ∙ e)

-- Where the run goes from an outcome: it ends, or the next node is one of the graph's.
abbrev pub IsRouted : Graph → String → String → Type 0
IsRouted g node outcome =
    (route g node outcome ≡ terminal)
    ⊎ ((target : String) × (m : Node) × (route g node outcome ≡ next target)
        × (find_node g.nodes target ≡ some m))

IsRouted-stage :
    (env : Env) (spec : Spec) (st : Stages env spec) (key : String) (n : Node) (outcome : String)
    → find_node spec.graph.nodes key ≡ some n
    → contains n.outcomes outcome ≡ true
    → IsRouted spec.graph key outcome
unfolding route
IsRouted-stage env spec st key n outcome found listed =
    elim (Bool-cases (is_terminal spec.graph.terminal_outcomes key outcome)) [
      | inl t ↦ inl (rw t)
      | inr t ↦ elim (Option-cases (find_edge spec.graph.edges key outcome)) [
        | inl e ↦
            let q = covered_lookup env spec st key n outcome found listed in
            let r : route_lookup st.routes key outcome ≡ none =
              routes_all env spec st key outcome ∙ rw (e, t) in
            absurd (cc (q, r))
        | inr (target, e) ↦
            let (m, f) = target_found env spec st key outcome target e in
            inr (target, m, rw (t, e), f)
      ]
    ]

-- In an accepted graph the router never fails on a declared outcome: the outcome ends the run, or
-- the router names a next node that the graph has.
pub route_total :
    (env : Env) (spec : Spec)
    → validate_graph env spec ≡ ok tt
    → (key : String) (n : Node) (outcome : String) → find_node spec.graph.nodes key ≡ some n
    → contains n.outcomes outcome ≡ true
    → IsRouted spec.graph key outcome
route_total env spec h = IsRouted-stage env spec (accepted-Stages env spec h)

-- In an accepted graph the router follows every edge: no terminal outcome and no other edge hides it.
pub route_edges :
    (env : Env) (spec : Spec)
    → validate_graph env spec ≡ ok tt
    → All (λ e. route spec.graph e.source e.outcome ≡ next e.target) spec.graph.edges
route_edges env spec h = edges_followed env spec (accepted-Stages env spec h)
