-- ===== src/Workflow/Routes.antt =====
-- What the loops over the edges and the terminal outcomes in
-- control-plane/internal/workflow/graph.go leave behind.
use iterabase_mono.Common.{
  ℕ, ◌+◌, String, ◌≡◌, ◌∙◌, inl, inr, Bool, true, false, ◌||◌, ◌&&◌, none, some, List, [], ◌∷◌,
  contains, contains-append, All, arith, eq_iff, Bool-cases, Option-cases, ◌==ₛ◌, if◌then◌else◌,
}
use mathlib.Core.Path.{subst₂}
use iterabase_mono.Common.Dict.{has_key, lookup-insert}
use iterabase_mono.Common.Result.{ok, >>-eq-ok}
use iterabase_mono.Workflow.Spec.{Edge, TerminalOutcome}
use iterabase_mono.Workflow.Walk.{Adjacency, neighbours}
use iterabase_mono.Workflow.Nodes.{or_else}
use iterabase_mono.Work.Routing.{find_edge, is_terminal}
use iterabase_mono.Workflow.Validate.{
  Nodes, declares, Routes, route_lookup, Links, link, check_edge, add_edge, check_edges,
  check_terminal, check_terminals,
}

unfoldable pub has_edge : List Edge → String → String → Bool
has_edge [] u v = false
has_edge (e ∷ es) u v = e.source ==ₛ u && e.target ==ₛ v || has_edge es u v

pub both_eq : (a b c d : String) → (a ==ₛ b && c ==ₛ d) ≡ true → (a ≡ b) × (c ≡ d)
both_eq a b c d h = ((eq_iff a b).0 (ground (arith, h)), (eq_iff c d).0 (ground (arith, h)))

pub both_refl : (a c : String) → (a ==ₛ a && c ==ₛ c) ≡ true
both_refl a c = ground (arith, eq_iff a a, eq_iff c c)

neighbours-link :
    (from to u v : String) (adj : Adjacency)
    → contains (neighbours (link from to adj) u) v
      ≡ (contains (neighbours adj u) v || from ==ₛ u && to ==ₛ v)
unfolding neighbours link
neighbours-link from to u v adj = rw lookup-insert (elim (Bool-cases (from ==ₛ u)) [
  | inl same ↦ rw same (rw ((eq_iff from u).0 same) (contains-append _ (to ∷ []) v ∙ ground arith))
  | inr other ↦ rw other (ground arith)
])

-- An edge between nodes, for an outcome that its source declares.
pub record IsLinked (nodes : Nodes) (e : Edge) : Type 0 where
  pub source_known : has_key nodes e.source ≡ true
  pub target_known : has_key nodes e.target ≡ true
  pub declared : declares nodes e.source e.outcome ≡ true

edge_checked :
    (nodes : Nodes) (i : ℕ) (e : Edge) (s : Links)
    → check_edge nodes i e s ≡ ok tt
    → IsLinked nodes e × (route_lookup s.routes e.source e.outcome ≡ none)
unfolding check_edge
edge_checked nodes i e s h = (
  record { source_known = ground arith; target_known = ground arith; declared = ground arith },
  ground arith,
)

module _ (nodes : Nodes) where
  pub edges-IsLinked :
      (i : ℕ) (es : List Edge) (s t : Links)
      → check_edges nodes i es s ≡ ok t
      → All (IsLinked nodes) es
  unfolding check_edges
  edges-IsLinked i [] s t h = tt
  edges-IsLinked i (e ∷ es) s t h =
      let (now, later) =
        >>-eq-ok (check_edge nodes i e s) (check_edges nodes (i + 1) es (add_edge e s)) h in
      ((edge_checked nodes i e s now).0, edges-IsLinked (i + 1) es (add_edge e s) t later)

  pub lookup-check_edges :
      (i : ℕ) (es : List Edge) (s t : Links)
      → check_edges nodes i es s ≡ ok t
      → (node outcome : String)
      → route_lookup t.routes node outcome
        ≡ or_else (route_lookup s.routes node outcome) (find_edge es node outcome)
  unfolding check_edges find_edge
  lookup-check_edges i [] s t h node outcome =
      ground (arith, Option-cases (route_lookup s.routes node outcome))
  lookup-check_edges i (e ∷ es) s t h node outcome =
      let (now, later) =
        >>-eq-ok (check_edge nodes i e s) (check_edges nodes (i + 1) es (add_edge e s)) h in
      lookup-check_edges (i + 1) es (add_edge e s) t later node outcome
      ∙ elim (Bool-cases (e.source ==ₛ node && e.outcome ==ₛ outcome)) [
        | inl same ↦
            let (p, q) = both_eq _ _ _ _ same in
            let fresh =
              subst₂ (λ x y. route_lookup s.routes x y ≡ none) p q
                (edge_checked nodes i e s now).1 in
            rw (same, fresh)
        | inr other ↦ rw other
      ]

  -- Each edge is the route of its outcome.
  pub edges_routed :
      (i : ℕ) (es : List Edge) (s t : Links)
      → check_edges nodes i es s ≡ ok t
      → All (λ e. route_lookup t.routes e.source e.outcome ≡ some e.target) es
  unfolding check_edges
  edges_routed i [] s t h = tt
  edges_routed i (e ∷ es) s t h =
      let (now, later) =
        >>-eq-ok (check_edge nodes i e s) (check_edges nodes (i + 1) es (add_edge e s)) h in
      (
        lookup-check_edges (i + 1) es (add_edge e s) t later e.source e.outcome
            ∙ rw (both_refl e.source e.outcome),
        edges_routed (i + 1) es (add_edge e s) t later,
      )

  pub neighbours-adj :
      (i : ℕ) (es : List Edge) (s t : Links)
      → check_edges nodes i es s ≡ ok t
      → (u v : String)
      → contains (neighbours t.adj u) v ≡ (contains (neighbours s.adj u) v || has_edge es u v)
  unfolding check_edges has_edge
  neighbours-adj i [] s t h u v = ground arith
  neighbours-adj i (e ∷ es) s t h u v =
      let (now, later) =
        >>-eq-ok (check_edge nodes i e s) (check_edges nodes (i + 1) es (add_edge e s)) h in
      neighbours-adj (i + 1) es (add_edge e s) t later u v
      ∙ rw (neighbours-link e.source e.target u v s.adj) (ground arith)

  pub neighbours-reverse :
      (i : ℕ) (es : List Edge) (s t : Links)
      → check_edges nodes i es s ≡ ok t
      → (u v : String)
      → contains (neighbours t.reverse v) u
        ≡ (contains (neighbours s.reverse v) u || has_edge es u v)
  unfolding check_edges has_edge
  neighbours-reverse i [] s t h u v = ground arith
  neighbours-reverse i (e ∷ es) s t h u v =
      let (now, later) =
        >>-eq-ok (check_edge nodes i e s) (check_edges nodes (i + 1) es (add_edge e s)) h in
      neighbours-reverse (i + 1) es (add_edge e s) t later u v
      ∙ rw (neighbours-link e.target e.source v u s.reverse) (ground arith)

  terminal_checked :
      (i : ℕ) (t : TerminalOutcome) (routes : Routes)
      → check_terminal nodes i t routes ≡ ok tt
      → (declares nodes t.node t.outcome ≡ true) × (route_lookup routes t.node t.outcome ≡ none)
  unfolding check_terminal
  terminal_checked i t routes h = (ground arith, ground arith)

  abbrev marked : TerminalOutcome → Routes → Routes
  marked t routes = (record { node = t.node; outcome = t.outcome }, "$terminal") ∷ routes

  pub lookup-check_terminals :
      (i : ℕ) (ts : List TerminalOutcome) (routes done : Routes)
      → check_terminals nodes i ts routes ≡ ok done
      → (node outcome : String)
      → route_lookup done node outcome
        ≡ or_else
            (route_lookup routes node outcome)
            (if is_terminal ts node outcome then some "$terminal" else none)
  unfolding check_terminals is_terminal
  lookup-check_terminals i [] routes done h node outcome =
      ground (arith, Option-cases (route_lookup routes node outcome))
  lookup-check_terminals i (t ∷ ts) routes done h node outcome =
      let (now, later) =
        >>-eq-ok (check_terminal nodes i t routes)
          (check_terminals nodes (i + 1) ts (marked t routes)) h in
      lookup-check_terminals (i + 1) ts (marked t routes) done later node outcome
      ∙ elim (Bool-cases (t.node ==ₛ node && t.outcome ==ₛ outcome)) [
        | inl same ↦
            let (p, q) = both_eq _ _ _ _ same in
            let fresh =
              subst₂ (λ x y. route_lookup routes x y ≡ none) p q
                (terminal_checked i t routes now).1 in
            rw (same, fresh)
        | inr other ↦ rw other
      ]

  -- A terminal outcome has no edge.
  pub terminals_unrouted :
      (i : ℕ) (ts : List TerminalOutcome) (routes done : Routes)
      → check_terminals nodes i ts routes ≡ ok done
      → (node outcome : String) → is_terminal ts node outcome ≡ true
      → route_lookup routes node outcome ≡ none
  unfolding check_terminals is_terminal
  terminals_unrouted i [] routes done h node outcome m = cc
  terminals_unrouted i (t ∷ ts) routes done h node outcome m =
      let (now, later) =
        >>-eq-ok (check_terminal nodes i t routes)
          (check_terminals nodes (i + 1) ts (marked t routes)) h in
      elim (Bool-cases (t.node ==ₛ node && t.outcome ==ₛ outcome)) [
        | inl same ↦
            let (p, q) = both_eq _ _ _ _ same in
            subst₂ (λ x y. route_lookup routes x y ≡ none) p q (terminal_checked i t routes now).1
        | inr other ↦
            let r =
              terminals_unrouted (i + 1) ts (marked t routes) done later node outcome
                (rw other at m) in
            rw other at r
      ]
