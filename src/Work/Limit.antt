-- ===== src/Work/Limit.antt =====
-- The transition limit of control-plane/internal/work/graph.go, over any number of completions.
use iterabase_mono.Common.{
  ℕ, suc, ◌+◌, ◌≤◌, String, ◌≡◌, refl, sym, ap, ◌∙◌, subst, inl, inr, not, ◌||◌, Option, some, List,
  [], ◌∷◌, length, contains, leb, arith, Bool-cases, ◌==ₛ◌,
}
use iterabase_mono.Common.Dict.{is_none}
use iterabase_mono.Common.Result.{Result, ok, reject_if, or_fail, >>-eq-ok, >>=-eq-ok, ok-injective}
use iterabase_mono.Work.Routing.{find_node, Routing, terminal, next, no_route, route}
use iterabase_mono.Work.Attempt.{
  RunState, NodeState, NodeExecution, Attempt, count_transitions, find_execution, set_state,
}
use iterabase_mono.Work.Advance.{
  AdvanceError, follow_route, advance_graph, fail_run, complete_turn, credit_value, finish_run,
  exceed_limit, log, is_running, node_changed, outcome_undeclared, turn_state, node_state,
}
use iterabase_mono.Work.Gate.{is_blocked, answer_execution, complete_human_node}
use iterabase_mono.Workflow.Spec.{Spec}
use iterabase_mono.Work.Bounds.{
  is_over, IsValid, finish_run-IsValid, exceed_limit-IsValid, fail_run-IsValid, length-set_state,
}
use iterabase_mono.Work.Entry.{enter_node_lem, Entered-IsValid}

-- A step keeps the attempt valid, and costs a transition where the run goes on.
abbrev pub Paid : Attempt → Attempt × RunState → Type 0
Paid a r =
    IsValid r.0
    × (r.0.spec ≡ a.spec)
    × (r.1 ≡ RunState.running
        → count_transitions r.0.transitions ≡ suc (count_transitions a.transitions))

ok_of {ℓ} :
    (P : Attempt × RunState → Type ℓ) (r q : Attempt × RunState)
    → P r
    → ◌≡◌ {A = Result AdvanceError (Attempt × RunState)} (ok r) (ok q)
    → P q
ok_of P r q p h = subst P (ok-injective r q h) p

module _ (ms : String → Option ℕ) (x : NodeExecution) where
  finish_spec : (outcome : String) (a : Attempt) → (finish_run x outcome a).spec ≡ a.spec
  unfolding finish_run credit_value
  finish_spec outcome a = ground arith

  follow_route-Paid :
      (outcome : String) (to : Routing) (a : Attempt) (r : Attempt × RunState)
      → IsValid a
      → follow_route ms x outcome to a ≡ ok r
      → Paid a r
  unfolding follow_route
  follow_route-Paid outcome no_route a r v h = cc
  follow_route-Paid outcome terminal a r v h =
      ok_of (Paid a) (finish_run x outcome a, RunState.succeeded) r
        (finish_run-IsValid x outcome a v, finish_spec outcome a, λ e. cc e) h
  follow_route-Paid outcome (next target) a r v h =
      elim (Bool-cases (leb a.spec.graph.max_transitions (count_transitions a.transitions))) [
        | inl full ↦
            ok_of (Paid a) (exceed_limit x a, RunState.failed) r
              (exceed_limit-IsValid x a v, unfold exceed_limit in refl, λ e. cc e) (rw full at h)
        | inr open_ ↦
            let (e, s) = enter_node_lem ms x outcome target a r.0 r.1 (rw open_ at h) in
            let (v', counts) = Entered-IsValid x outcome target a r.0 e v (ground arith) in
            (v', e.spec_eq, λ _. counts)
      ]

  advance_graph-Paid :
      (a : Attempt) (r : Attempt × RunState) → IsValid a → advance_graph ms x a ≡ ok r → Paid a r
  unfolding advance_graph
  advance_graph-Paid a r v h =
      let (outcome, _, h₁) = >>=-eq-ok (or_fail x.completion_outcome _) _ h in
      let (n, _, h₂) = >>=-eq-ok (or_fail (find_node a.spec.graph.nodes x.node_key) _) _ h₁ in
      let (_, h₃) = >>-eq-ok (reject_if (not (n.kind ==ₛ x.kind)) (node_changed x.node_key)) _ h₂ in
      let (_, h₄) =
        >>-eq-ok (reject_if (not (contains n.outcomes outcome)) (outcome_undeclared outcome)) _
          h₃ in
      follow_route-Paid outcome (route a.spec.graph x.node_key outcome)
        (log "node_completed" (some x.execution_seq) a) r
        (record { bounded = v.bounded; counted = v.counted; ended = v.ended }) h₄

  fail_run-Paid :
      (reason : String) (failure : Option String) (a : Attempt)
      → IsValid a
      → Paid a (fail_run ms x reason failure a)
  fail_run-Paid reason failure a v = (
    fail_run-IsValid ms x reason failure a v,
    unfold fail_run in refl,
    unfold fail_run in λ e. ground (arith, e),
  )

settled :
    (seq : ℕ) (a : Attempt)
    → IsValid a
    → IsValid (record a {
      turn = RunState.succeeded;
      executions = set_state seq NodeState.succeeded a.executions;
    })
settled seq a v = record {
  bounded = v.bounded;
  counted = length-set_state seq NodeState.succeeded a.executions ∙ v.counted;
  ended = v.ended;
}

complete_turn-Paid :
    (ms : String → Option ℕ) (seq : ℕ) (reason : String) (failure : Option String) (a : Attempt)
    (r : Attempt × RunState)
    → IsValid a
    → complete_turn ms seq reason failure a ≡ ok r
    → Paid a r
unfolding complete_turn
complete_turn-Paid ms seq reason failure a r v h =
    let (x, _, h₁) = >>=-eq-ok (or_fail (find_execution seq a.executions) _) _ h in
    let (_, h₂) = >>-eq-ok (reject_if (not (is_running a.turn)) (turn_state a.turn)) _ h₁ in
    elim (Bool-cases
      (not (reason ==ₛ "completed") || is_none x.completion_outcome || not x.completion_reported)) [
        | inl failed ↦ ok_of (Paid a) _ r (fail_run-Paid ms x reason failure a v) (rw failed at h₂)
        | inr done ↦ advance_graph-Paid ms x _ r (settled seq a v) (rw done at h₂)
      ]

-- A completed or failed turn keeps the attempt valid: the run's transitions do not exceed the
-- graph's limit, each execution after the first has its transition, and the attempt is finished
-- exactly when its run is over.
pub complete_turn-IsValid :
    (ms : String → Option ℕ) (seq : ℕ) (reason : String) (failure : Option String) (a a' : Attempt)
    (s : RunState)
    → IsValid a
    → complete_turn ms seq reason failure a ≡ ok (a', s)
    → IsValid a'
complete_turn-IsValid ms seq reason failure a a' s v h =
    (complete_turn-Paid ms seq reason failure a (a', s) v h).0

length-answer_execution :
    (seq : ℕ) (outcome : String) (refs : List String) (xs : List NodeExecution)
    → length (answer_execution seq outcome refs xs) ≡ length xs
unfolding answer_execution
length-answer_execution seq outcome refs [] = refl
length-answer_execution seq outcome refs (x ∷ xs) =
    ap suc (length-answer_execution seq outcome refs xs)

complete_human_node-Paid :
    (ms : String → Option ℕ) (seq : ℕ) (outcome : String) (refs : List String) (a : Attempt)
    (r : Attempt × RunState)
    → IsValid a
    → complete_human_node ms seq outcome refs a ≡ ok r
    → Paid a r
unfolding complete_human_node
complete_human_node-Paid ms seq outcome refs a r v h =
    let (x, _, h₁) = >>=-eq-ok (or_fail (find_execution seq a.executions) _) _ h in
    let (_, h₂) = >>-eq-ok (reject_if (not (is_blocked x.state)) (node_state x.state)) _ h₁ in
    advance_graph-Paid ms _ _ r
      (record {
        bounded = v.bounded;
        counted = length-answer_execution seq outcome refs a.executions ∙ v.counted;
        ended = v.ended;
      })
      h₂

-- The completed turns and the answered human nodes of one run, each of which went on to a further
-- node. These are the calls that advance the graph. Between two of them others may change the
-- attempt, but leave its graph, its transitions and the number of its executions, and neither end nor
-- revive the run.
pub data Turns (ms : String → Option ℕ) (a : Attempt) : ℕ → Attempt → Type 0 where
  start : Turns ms a 0 a
  turn :
      {n : ℕ} {b c : Attempt} (seq : ℕ) (reason : String) (failure : Option String)
      → Turns ms a n b
      → complete_turn ms seq reason failure b ≡ ok (c, RunState.running)
      → Turns ms a (suc n) c
  answer :
      {n : ℕ} {b c : Attempt} (seq : ℕ) (outcome : String) (refs : List String)
      → Turns ms a n b
      → complete_human_node ms seq outcome refs b ≡ ok (c, RunState.running)
      → Turns ms a (suc n) c
  between :
      {n : ℕ} {b c : Attempt}
      → Turns ms a n b
      → c.spec ≡ b.spec
      → c.transitions ≡ b.transitions
      → length c.executions ≡ length b.executions
      → is_over c.run ≡ is_over b.run
      → c.finished ≡ b.finished
      → Turns ms a n c

Turns-paid :
    (ms : String → Option ℕ) (a : Attempt) (n : ℕ) (b : Attempt)
    → IsValid a
    → Turns ms a n b
    → IsValid b
      × (b.spec ≡ a.spec)
      × (count_transitions b.transitions ≡ n + count_transitions a.transitions)
Turns-paid ms a n b v start = (v, refl, omega arith)
Turns-paid ms a n b v (turn {n = m} {b = c} seq reason failure ts h) =
    let (w, spec, e) = Turns-paid ms a m c v ts in
    let (w', spec', paid) = complete_turn-Paid ms seq reason failure c (b, RunState.running) w h in
    (w', spec' ∙ spec, paid refl ∙ omega (arith, e))
Turns-paid ms a n b v (answer {n = m} {b = c} seq outcome refs ts h) =
    let (w, spec, e) = Turns-paid ms a m c v ts in
    let (w', spec', paid) =
      complete_human_node-Paid ms seq outcome refs c (b, RunState.running) w h in
    (w', spec' ∙ spec, paid refl ∙ omega (arith, e))
Turns-paid ms a n b v (between {n = m} {b = c} ts spec transitions executions over finished) =
    let (w, spec', e) = Turns-paid ms a n c v ts in
    let counts = ap count_transitions transitions in
    let limit = ap (λ (s : Spec). s.graph.max_transitions) spec in
    (
      record {
        bounded = omega (arith, w.bounded, counts, limit);
        counted = executions ∙ w.counted ∙ ap suc (sym counts);
        ended = over ∙ w.ended ∙ sym finished;
      },
      spec ∙ spec',
      counts ∙ e,
    )

-- From a valid attempt, the completed turns and answered human nodes that go on to a further node are,
-- with the transitions made before, at most as many as the graph's limit, whatever their outcomes are
-- and whatever changes, in between, neither the graph, the transitions, the number of executions nor
-- whether the run is over.
pub runs_bounded :
    (ms : String → Option ℕ) (a b : Attempt) (n : ℕ)
    → IsValid a
    → Turns ms a n b
    → n + count_transitions a.transitions ≤ a.spec.graph.max_transitions
runs_bounded ms a b n v ts =
    let (w, spec, e) = Turns-paid ms a n b v ts in
    omega (arith, w.bounded, e, ap (λ (s : Spec). s.graph.max_transitions) spec)
