-- ===== src/Work/Entry.antt =====
-- What `enter_node`, the last part of advanceGraphTx in control-plane/internal/work/graph.go, leaves.
use iterabase_mono.Common.{
  ℕ, suc, ◌+◌, ◌<◌, String, ◌≡◌, refl, sym, ap, ◌∙◌, Option, some, List, [], ◌∷◌, ◌++◌, length,
  length-append, arith, inl, inr, Bool-cases, ◌==ₛ◌, eq_iff,
}
use iterabase_mono.Common.Result.{
  ok, or_fail, or_fail-eq-ok, reject_if, >>-eq-ok, >>=-eq-ok, ok-injective,
}
use iterabase_mono.Workflow.Spec.{Node, Spec}
use iterabase_mono.Work.Routing.{find_node}
use iterabase_mono.Work.Attempt.{
  RunState, Context, NodeExecution, Transition, Attempt, count_transitions, last_visit, last_seq,
}
use iterabase_mono.Work.Advance.{
  insert_node_execution, enter_node, resumed, new_execution, timeout_of, invalid_timeout, is_zero,
  check_violation, target_missing,
}
use iterabase_mono.Work.Bounds.{is_over, IsValid, count-append}

-- What `enter_node` leaves: one more execution, and one more transition, which names it.
pub record Entered (x : NodeExecution) (outcome target : String) (a a' : Attempt) : Type 0 where
  pub row : NodeExecution
  pub keyed : row.node_key ≡ target
  pub numbered : row.execution_seq ≡ last_seq a.executions + 1
  pub visited : row.visit ≡ last_visit target a.executions + 1
  pub executions_eq : a'.executions ≡ a.executions ++ row ∷ []
  pub transitions_eq :
      a'.transitions
      ≡ a.transitions
        ++ record {
          source = x.execution_seq;
          outcome = outcome;
          target = some (last_seq a.executions + 1);
        }
          ∷ []
  pub spec_eq : a'.spec ≡ a.spec
  pub run_eq : a'.run ≡ resumed a.run
  pub finished_eq : a'.finished ≡ a.finished

inserted_row :
    (ms : String → Option ℕ) (spec : Spec) (n : Node) (visit seq : ℕ) (c : Context)
    (xs ys : List NodeExecution)
    → insert_node_execution ms spec n visit seq c xs ≡ ok ys
    → (row : NodeExecution) × (row.node_key ≡ n.key)
      × (row.execution_seq ≡ seq)
      × (row.visit ≡ visit)
      × (ys ≡ xs ++ row ∷ [])
unfolding insert_node_execution new_execution
inserted_row ms spec n visit seq c xs ys h =
    let (t, _, r) = >>=-eq-ok (or_fail (timeout_of ms n.timeout) (invalid_timeout n.timeout)) _ h in
    let (_, e) = >>-eq-ok (reject_if (is_zero t) (check_violation "timeout_ms")) _ r in
    (new_execution spec n visit seq c t, refl, refl, refl, sym (ok-injective _ _ e))

found_key : (ns : List Node) (key : String) (n : Node) → find_node ns key ≡ some n → n.key ≡ key
unfolding find_node
found_key [] key n e = cc
found_key (m ∷ ms) key n e = elim (Bool-cases (m.key ==ₛ key)) [
  | inl same ↦
      let f : some m ≡ some n = rw same at e in
      let q : m ≡ n = ground (arith, f) in
      ap (λ (k : Node). k.key) (sym q) ∙ (eq_iff m.key key).0 same
  | inr other ↦ found_key ms key n (rw other at e)
]

pub enter_node_lem :
    (ms : String → Option ℕ) (x : NodeExecution) (outcome target : String) (a a' : Attempt)
    (s : RunState)
    → enter_node ms x outcome target a ≡ ok (a', s)
    → Entered x outcome target a a' × (s ≡ RunState.running)
unfolding enter_node
enter_node_lem ms x outcome target a a' s h =
    let (n, found, h₁) = >>=-eq-ok (or_fail (find_node a.spec.graph.nodes target) _) _ h in
    let (executions, inserted, h₂) = >>=-eq-ok (insert_node_execution ms a.spec n _ _ _ _) _ h₁ in
    let (row, key, seq, visit, rows) =
      inserted_row ms a.spec n _ _ _ a.executions executions inserted in
    let e = sym (ok-injective _ _ h₂) in
    (
      record {
        row = row;
        keyed =
            key
            ∙ found_key a.spec.graph.nodes target n
                (or_fail-eq-ok (find_node a.spec.graph.nodes target) (target_missing target) found);
        numbered = seq;
        visited = visit;
        executions_eq = ap (λ (r : Attempt × RunState). r.0.executions) e ∙ rows;
        transitions_eq = ap (λ (r : Attempt × RunState). r.0.transitions) e;
        spec_eq = ap (λ (r : Attempt × RunState). r.0.spec) e;
        run_eq = ap (λ (r : Attempt × RunState). r.0.run) e;
        finished_eq = ap (λ (r : Attempt × RunState). r.0.finished) e;
      },
      ap (λ (r : Attempt × RunState). r.1) e,
    )

pub Entered-IsValid :
    (x : NodeExecution) (outcome target : String) (a a' : Attempt)
    → Entered x outcome target a a'
    → IsValid a
    → count_transitions a.transitions < a.spec.graph.max_transitions
    → IsValid a' × (count_transitions a'.transitions ≡ suc (count_transitions a.transitions))
unfolding count_transitions
Entered-IsValid x outcome target a a' e v below =
    let entry : Transition = record {
      source = x.execution_seq;
      outcome = outcome;
      target = some (last_seq a.executions + 1);
    } in
    let counts : count_transitions a'.transitions ≡ suc (count_transitions a.transitions) =
      ap count_transitions e.transitions_eq
      ∙ count-append a.transitions (entry ∷ [])
      ∙ omega arith in
    let limit : a'.spec.graph.max_transitions ≡ a.spec.graph.max_transitions =
      ap (λ (s : Spec). s.graph.max_transitions) e.spec_eq in
    let rows : length a'.executions ≡ length a.executions + 1 =
      ap length e.executions_eq ∙ length-append a.executions (e.row ∷ []) in
    (
      record {
        bounded = omega (arith, counts, limit);
        counted = omega (arith, rows, v.counted, counts);
        ended = ap is_over e.run_eq ∙ over_resumed a.run ∙ v.ended ∙ sym e.finished_eq;
      },
      counts,
    )
  where
    over_resumed : (r : RunState) → is_over (resumed r) ≡ is_over r
    over_resumed r = ground arith
