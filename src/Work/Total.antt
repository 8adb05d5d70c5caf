-- ===== src/Work/Total.antt =====
-- The errors of CompleteTurn and advanceGraphTx (control-plane/internal/work/graph.go) on an accepted
-- graph.
use iterabase_mono.Common.{
  ℕ, ◌+◌, String, ◌≡◌, ◌≢◌, refl, subst, ◌⊎◌, inl, inr, Bool, true, false, not, ◌||◌, Option, none,
  some, List, [], ◌∷◌, ◌==◌, ap, ◌∙◌, contains, leb, arith, eq_iff, Bool-cases, Option-cases, ◌==ₛ◌,
}
use iterabase_mono.Common.Dict.{is_none, insert}
use iterabase_mono.Common.Result.{Result, ok, err, >>-eq-ok}
use iterabase_mono.Workflow.Spec.{Node, Spec, agent_task, human_gate_kind}
use iterabase_mono.Workflow.Validate.{
  Env, Nodes, check_agent_task, check_kind, check_node, check_nodes,
}
use iterabase_mono.Workflow.Contract.{validate_graph}
use iterabase_mono.Workflow.Accepted.{accepted-Stages}
use iterabase_mono.Work.Routing.{find_node, Routing, terminal, next, no_route, route}
use iterabase_mono.Work.Routed.{IsRouted, route_total}
use iterabase_mono.Work.Attempt.{
  RunState, NodeState, NodeExecution, Attempt, count_transitions, find_execution, set_state,
}
use iterabase_mono.Work.Advance.{
  AdvanceError, enter_node, follow_route, advance_graph, complete_turn, log, insert_node_execution,
  timeout_of, is_zero,
}

found_checked :
    (env : Env) (spec : Spec) (i : ℕ) (ns : List Node) (nodes done : Nodes)
    → check_nodes env spec i ns nodes ≡ ok done
    → (key : String) (n : Node) → find_node ns key ≡ some n
    → (j : ℕ) × (seen : Nodes) × (check_node env spec j n seen ≡ ok tt)
unfolding check_nodes find_node
found_checked env spec i [] nodes done h key n e = cc
found_checked env spec i (m ∷ ms) nodes done h key n e =
    let (now, later) =
      >>-eq-ok (check_node env spec i m nodes)
        (check_nodes env spec (i + 1) ms (insert m.key m nodes)) h in
    elim (Bool-cases (m.key ==ₛ key)) [
      | inl same ↦
          let f : some m ≡ some n = rw same at e in
          let q : m ≡ n = ground (arith, f) in
          (i, nodes, subst (λ k. check_node env spec i k nodes ≡ ok tt) q now)
      | inr other ↦
          found_checked env spec (i + 1) ms (insert m.key m nodes) done later key n (rw other at e)
    ]

agent_timeout :
    (env : Env) (spec : Spec) (i : ℕ) (n : Node)
    → check_agent_task env spec i n ≡ ok tt
    → (n.timeout ≡ "") ⊎ (env.positive_duration n.timeout ≡ true)
unfolding check_agent_task
agent_timeout env spec i n h = ground (arith, h, eq_iff n.timeout "")

node_kind :
    (env : Env) (spec : Spec) (i : ℕ) (n : Node) (nodes : Nodes)
    → check_node env spec i n nodes ≡ ok tt
    → check_kind env spec i n ≡ ok tt
unfolding check_node
node_kind env spec i n nodes h = ground (arith, h)

kind_timeout :
    (env : Env) (spec : Spec) (i : ℕ) (n : Node)
    → check_kind env spec i n ≡ ok tt
    → (n.kind ≡ human_gate_kind) ⊎ ((n.timeout ≡ "") ⊎ (env.positive_duration n.timeout ≡ true))
unfolding check_kind
kind_timeout env spec i n h = elim (Bool-cases (n.kind ==ₛ agent_task)) [
  | inl agent ↦ inr (agent_timeout env spec i n (rw agent at h))
  | inr other ↦ elim (Bool-cases (n.kind ==ₛ human_gate_kind)) [
    | inl gate ↦ inl ((eq_iff _ _).0 gate)
    | inr unknown ↦ let e = rw other at h in let f = rw unknown at e in cc f
  ]
]

-- The clock of the two checks is one: a duration is valid for the graph check exactly when the
-- insertion of an execution can convert it.
abbrev pub Agrees : Env → (String → Option ℕ) → Type 0
Agrees env ms = (d : String) → env.positive_duration d ≡ not (is_none (ms d))

-- ValidateGraph reads the timeout of an agent task only.
abbrev pub GatesUntimed : Spec → Type 0
GatesUntimed spec =
    (key : String) (n : Node)
    → find_node spec.graph.nodes key ≡ some n
    → n.kind ≡ human_gate_kind
    → n.timeout ≡ ""

-- Every timeout is a whole number of milliseconds above 0 once it is cut to milliseconds.
abbrev pub AreTimed : Spec → (String → Option ℕ) → Type 0
AreTimed spec ms =
    (key : String) (n : Node) → find_node spec.graph.nodes key ≡ some n → ms n.timeout ≢ some 0

timeout_some :
    (env : Env) (ms : String → Option ℕ) (timeout : String)
    → Agrees env ms
    → (timeout ≡ "") ⊎ (env.positive_duration timeout ≡ true)
    → ms timeout ≢ some 0
    → (t : Option ℕ) × (timeout_of ms timeout ≡ some t) × (is_zero t ≡ false)
unfolding timeout_of
timeout_some env ms timeout agrees (inl e) whole = (none, rw e, refl)
timeout_some env ms timeout agrees (inr p) whole = elim (Bool-cases (timeout ==ₛ "")) [
  | inl same ↦ (none, rw same, refl)
  | inr other ↦ elim (Option-cases (ms timeout)) [
    | inl e ↦ let q = agrees timeout in absurd (ground (arith, q, p, e))
    | inr (t, e) ↦ elim (Bool-cases (t == 0)) [
      | inl nothing ↦
          let zero_ms : t ≡ 0 = ground (arith, nothing) in
          absurd (whole (e ∙ ap (λ (k : ℕ). some k) zero_ms))
      | inr positive ↦ (some t, rw (other, e), positive)
    ]
  ]
]

node_timeout :
    (env : Env) (spec : Spec) (ms : String → Option ℕ)
    → validate_graph env spec ≡ ok tt
    → Agrees env ms
    → GatesUntimed spec
    → AreTimed spec ms
    → (key : String) (n : Node) → find_node spec.graph.nodes key ≡ some n
    → (t : Option ℕ) × (timeout_of ms n.timeout ≡ some t) × (is_zero t ≡ false)
node_timeout env spec ms h agrees untimed timed key n found =
    let st = accepted-Stages env spec h in
    let (i, seen, c) =
      found_checked env spec 0 spec.graph.nodes [] st.nodes st.nodes_ok key n found in
    timeout_some env ms n.timeout agrees
      (elim (kind_timeout env spec i n (node_kind env spec i n seen c)) [
        | inl gate ↦ inl (untimed key n found gate)
        | inr valid ↦ valid
      ])
      (timed key n found)

abbrev is_ok : Result AdvanceError (Attempt × RunState) → Bool
is_ok (ok _) = true
is_ok (err _) = false

module _ (ms : String → Option ℕ) (x : NodeExecution) (outcome : String) where
  enter_node_total :
      (target : String) (a : Attempt) (n : Node) (t : Option ℕ)
      → find_node a.spec.graph.nodes target ≡ some n
      → timeout_of ms n.timeout ≡ some t
      → is_zero t ≡ false
      → is_ok (enter_node ms x outcome target a) ≡ true
  unfolding enter_node insert_node_execution
  enter_node_total target a n t found valid positive = rw (found, valid, positive) refl

  follow_route_total :
      (to : Routing) (a : Attempt)
      → ((target : String)
          → to ≡ next target
          → (n : Node) × (t : Option ℕ) × (find_node a.spec.graph.nodes target ≡ some n)
            × (timeout_of ms n.timeout ≡ some t)
            × (is_zero t ≡ false))
      → to ≢ no_route
      → is_ok (follow_route ms x outcome to a) ≡ true
  unfolding follow_route
  follow_route_total terminal a known routed = refl
  follow_route_total no_route a known routed = absurd (routed refl)
  follow_route_total (next target) a known routed =
      elim (Bool-cases (leb a.spec.graph.max_transitions (count_transitions a.transitions))) [
        | inl full ↦ rw full refl
        | inr below ↦
            let (n, t, found, valid, positive) = known target refl in
            let e = enter_node_total target a n t found valid positive in rw below e
      ]

to_result :
    (m : Result AdvanceError (Attempt × RunState))
    → is_ok m ≡ true
    → (r : Attempt × RunState) × (m ≡ ok r)
to_result (ok r) e = (r, refl)
to_result (err _) e = cc

advance_graph_total :
    (env : Env) (ms : String → Option ℕ) (x : NodeExecution) (a : Attempt) (n : Node)
    (outcome : String)
    → validate_graph env a.spec ≡ ok tt
    → Agrees env ms
    → GatesUntimed a.spec
    → AreTimed a.spec ms
    → find_node a.spec.graph.nodes x.node_key ≡ some n
    → n.kind ≡ x.kind
    → x.completion_outcome ≡ some outcome
    → contains n.outcomes outcome ≡ true
    → is_ok (advance_graph ms x a) ≡ true
unfolding advance_graph
advance_graph_total env ms x a n outcome h agrees untimed timed found kind reported declared =
    rw (reported, found, (eq_iff _ _).1 kind, declared)
      (follow_route_total ms x outcome (route a.spec.graph x.node_key outcome)
        (log "node_completed" (some x.execution_seq) a) known routed)
  where
    total : IsRouted a.spec.graph x.node_key outcome
    total = route_total env a.spec h x.node_key n outcome found declared

    known :
        (target : String)
        → route a.spec.graph x.node_key outcome ≡ next target
        → (m : Node) × (t : Option ℕ) × (find_node a.spec.graph.nodes target ≡ some m)
          × (timeout_of ms m.timeout ≡ some t)
          × (is_zero t ≡ false)
    known target e = elim total [
      | inl ends ↦ absurd (cc (ends, e))
      | inr (to, m, goes, there) ↦
          let q : to ≡ target = ground (arith, goes, e) in
          let f = subst (λ k. find_node a.spec.graph.nodes k ≡ some m) q there in
          let (t, valid, positive) = node_timeout env a.spec ms h agrees untimed timed target m f in
          (m, t, f, valid, positive)
    ]

    routed : route a.spec.graph x.node_key outcome ≢ no_route
    routed e = elim total [ inl ends ↦ cc (ends, e) | inr (to, m, goes, there) ↦ cc (goes, e) ]

-- An execution of an accepted graph's node, with a completion outcome, where it has one, that the
-- node declares.
pub record IsDeclared (spec : Spec) (x : NodeExecution) (n : Node) : Type 0 where
  pub known : find_node spec.graph.nodes x.node_key ≡ some n
  pub same_kind : n.kind ≡ x.kind
  pub declared :
      (outcome : String) → x.completion_outcome ≡ some outcome → contains n.outcomes outcome ≡ true

-- In an accepted graph whose human gates have no timeout and whose other timeouts are at
-- least a millisecond, the completion of the running turn of an
-- execution that the graph declares always succeeds, whatever the reason, the reported outcome, the
-- limit and the rest of the attempt are.
pub complete_turn_total :
    (env : Env) (ms : String → Option ℕ) (seq : ℕ) (reason : String) (failure : Option String)
    (a : Attempt) (x : NodeExecution) (n : Node)
    → validate_graph env a.spec ≡ ok tt
    → Agrees env ms
    → GatesUntimed a.spec
    → AreTimed a.spec ms
    → find_execution seq a.executions ≡ some x
    → IsDeclared a.spec x n
    → a.turn ≡ RunState.running
    → (r : Attempt × RunState) × (complete_turn ms seq reason failure a ≡ ok r)
unfolding complete_turn
complete_turn_total env ms seq reason failure a x n h agrees untimed timed held d running =
    elim (Bool-cases
      (not (reason ==ₛ "completed") || is_none x.completion_outcome || not x.completion_reported)) [
        | inl failed ↦ to_result _ (rw (held, running, failed) refl)
        | inr done ↦ elim (Option-cases x.completion_outcome) [
          | inl none_yet ↦ absurd (ground (arith, done, none_yet))
          | inr (outcome, reported) ↦
              let e =
                advance_graph_total env ms x
                  (record a {
                    turn = RunState.succeeded;
                    executions = set_state seq NodeState.succeeded a.executions;
                  })
                  n outcome h agrees untimed timed d.known d.same_kind reported
                  (d.declared outcome reported) in
              to_result _ (rw (held, running, done) e)
        ]
      ]
