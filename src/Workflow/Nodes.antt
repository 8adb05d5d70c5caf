-- ===== src/Workflow/Nodes.antt =====
-- What the loop over the nodes in control-plane/internal/workflow/graph.go leaves behind.
use iterabase_mono.Common.{
  ℕ, ◌+◌, String, ◌≡◌, ◌∙◌, subst, inl, inr, Option, none, some, List, [], ◌∷◌, arith, eq_iff,
  Bool-cases, Option-cases, ◌==ₛ◌,
}
use iterabase_mono.Common.Dict.{lookup, insert, lookup-insert}
use iterabase_mono.Common.Result.{ok, >>-eq-ok}
use iterabase_mono.Workflow.Spec.{Node, Spec}
use iterabase_mono.Work.Routing.{find_node}
use iterabase_mono.Workflow.Validate.{Env, Nodes, check_node, check_nodes}

abbrev pub or_else {ℓ} : {A : Type ℓ} → Option A → Option A → Option A
or_else none b = b
or_else (some a) b = some a

node_new :
    (env : Env) (spec : Spec) (i : ℕ) (n : Node) (nodes : Nodes)
    → check_node env spec i n nodes ≡ ok tt
    → lookup n.key nodes ≡ none
unfolding check_node
node_new env spec i n nodes h = ground arith

pub lookup-check_nodes :
    (env : Env) (spec : Spec) (i : ℕ) (ns : List Node) (nodes done : Nodes)
    → check_nodes env spec i ns nodes ≡ ok done
    → (key : String) → lookup key done ≡ or_else (lookup key nodes) (find_node ns key)
unfolding check_nodes find_node
lookup-check_nodes env spec i [] nodes done h key = ground (arith, Option-cases (lookup key nodes))
lookup-check_nodes env spec i (n ∷ ns) nodes done h key =
    let (fresh, rest) =
      >>-eq-ok (check_node env spec i n nodes)
        (check_nodes env spec (i + 1) ns (insert n.key n nodes)) h in
    lookup-check_nodes env spec (i + 1) ns (insert n.key n nodes) done rest key
    ∙ rw lookup-insert (elim (Bool-cases (n.key ==ₛ key)) [
      | inl same ↦
          let e =
            subst (λ k. lookup k nodes ≡ none) ((eq_iff _ _).0 same)
              (node_new env spec i n nodes fresh) in
          rw (same, e)
      | inr other ↦ rw other
    ])
