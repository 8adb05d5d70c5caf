-- ===== src/Workflow/Accepted.antt =====
-- The stages that a spec which control-plane/internal/workflow/graph.go accepts has passed.
use iterabase_mono.Common.{String, ◌≡◌, Bool, true, false, not, List, [], ◌∷◌, contains, All, arith}
use iterabase_mono.Common.Dict.{has_key}
use iterabase_mono.Common.Result.{
  ok, reject_if, each, each-eq-ok, >>-eq-ok, >>=-eq-ok, reject_if-eq-ok,
}
use iterabase_mono.Workflow.Spec.{Node, Spec}
use iterabase_mono.Workflow.Walk.{walk}
use iterabase_mono.Workflow.Validate.{
  Env, Nodes, check_nodes, Routes, Links, check_edges, check_terminals,
}
use iterabase_mono.Workflow.Contract.{
  check_graph_fields, no_links, validate_result_presentations, check_covered, can_terminate,
  validate_graph,
}

-- The values of the stages of an accepted graph.
pub record Stages (env : Env) (spec : Spec) : Type 0 where
  pub nodes : Nodes
  pub links : Links
  pub routes : Routes
  pub nodes_ok : check_nodes env spec 0 spec.graph.nodes [] ≡ ok nodes
  pub entry_ok : has_key nodes spec.graph.entry_node ≡ true
  pub edges_ok : check_edges nodes 0 spec.graph.edges no_links ≡ ok links
  pub terminals_ok : check_terminals nodes 0 spec.graph.terminal_outcomes links.routes ≡ ok routes
  pub covered : All (λ e. check_covered routes e ≡ ok tt) nodes
  pub reachable :
      All (λ (e : String × Node). contains (walk spec.graph.entry_node links.adj) e.0 ≡ true) nodes
  pub exits :
      All
        (λ (e : String × Node).
          contains (can_terminate links.reverse spec.graph.terminal_outcomes) e.0 ≡ true)
        nodes

pub All-map {ℓ κ μ} :
    {A : Type ℓ} {P : A → Type κ} {Q : A → Type μ} (xs : List A)
    → ((x : A) → P x → Q x)
    → All P xs
    → All Q xs
All-map [] f h = tt
All-map (x ∷ xs) f h = (f x h.0, All-map xs f h.1)

not-false : (b : Bool) → not b ≡ false → b ≡ true
not-false b h = ground arith

pub accepted-Stages : (env : Env) (spec : Spec) → validate_graph env spec ≡ ok tt → Stages env spec
unfolding validate_graph
accepted-Stages env spec h =
    let (_, h₁) = >>-eq-ok (check_graph_fields spec) _ h in
    let (nodes, nodes_ok, h₂) = >>=-eq-ok (check_nodes env spec 0 spec.graph.nodes []) _ h₁ in
    let (entry, h₃) = >>-eq-ok (reject_if (not (has_key nodes spec.graph.entry_node)) _) _ h₂ in
    let (links, edges_ok, h₄) = >>=-eq-ok (check_edges nodes 0 spec.graph.edges no_links) _ h₃ in
    let (routes, terminals_ok, h₅) =
      >>=-eq-ok (check_terminals nodes 0 spec.graph.terminal_outcomes links.routes) _ h₄ in
    let (_, h₆) =
      >>-eq-ok (validate_result_presentations env nodes spec.graph.terminal_outcomes) _ h₅ in
    let (covered, h₇) = >>-eq-ok (each (check_covered routes) nodes) _ h₆ in
    let (reachable, exits) = >>-eq-ok (each _ nodes) _ h₇ in
    record {
      nodes = nodes;
      links = links;
      routes = routes;
      nodes_ok = nodes_ok;
      entry_ok = not-false _ (reject_if-eq-ok _ _ entry);
      edges_ok = edges_ok;
      terminals_ok = terminals_ok;
      covered = each-eq-ok _ nodes covered;
      reachable =
          All-map nodes (λ e r. not-false _ (reject_if-eq-ok _ _ r)) (each-eq-ok _ nodes reachable);
      exits = All-map nodes (λ e r. not-false _ (reject_if-eq-ok _ _ r)) (each-eq-ok _ nodes exits);
    }
