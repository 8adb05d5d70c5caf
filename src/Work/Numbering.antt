-- ===== src/Work/Numbering.antt =====
-- The unique keys of `runtime.node_executions` under advanceGraphTx of
-- control-plane/internal/work/graph.go, and the run state that CompleteTurn reports.
use iterabase_mono.Common.{
  ℕ, ◌≤◌, ◌<◌, String, ◌≡◌, refl, sym, ◌∙◌, subst, inl, inr, Bool, true, false, not, ◌||◌, Option,
  some, List, [], ◌∷◌, ◌++◌, All, arith, eq_iff, leb, contains, Bool-cases, ◌==ₛ◌,
}
use iterabase_mono.Common.Dict.{is_none}
use iterabase_mono.Common.Result.{ok, reject_if, or_fail, >>-eq-ok, >>=-eq-ok, ok-injective}
use iterabase_mono.Work.Routing.{find_node, Routing, terminal, next, no_route, route}
use iterabase_mono.Work.Attempt.{
  RunState, NodeExecution, Attempt, find_execution, last_visit, last_seq, count_transitions,
}
use iterabase_mono.Work.Advance.{
  enter_node, follow_route, advance_graph, fail_run, complete_turn, credit_value, finish_run,
  exceed_limit, log, is_running, resumed, node_changed, outcome_undeclared, turn_state,
}
use iterabase_mono.Work.Entry.{enter_node_lem}

All-weaken {ℓ κ μ} :
    {A : Type ℓ} {P : A → Type κ} {Q : A → Type μ} (xs : List A)
    → ((x : A) → P x → Q x)
    → All P xs
    → All Q xs
All-weaken [] f h = tt
All-weaken (x ∷ xs) f h = (f x h.0, All-weaken xs f h.1)

seqs_below : (xs : List NodeExecution) → All (λ y. y.execution_seq ≤ last_seq xs) xs
unfolding last_seq
seqs_below [] = tt
seqs_below (x ∷ xs) = (omega arith, All-weaken xs (λ y h. omega (arith, h)) (seqs_below xs))

visits_below :
    (key : String) (xs : List NodeExecution)
    → All (λ y. y.node_key ≡ key → y.visit ≤ last_visit key xs) xs
unfolding last_visit
visits_below key [] = tt
visits_below key (x ∷ xs) = (
  λ same. rw ((eq_iff _ _).1 same) (omega arith),
  All-weaken xs (λ y h e. ground (arith, h e)) (visits_below key xs),
)

-- The execution that a transition adds is the target's and never clashes with an earlier one of the
-- attempt: its sequence number is above them all, and its visit number above every earlier visit of
-- its node.
pub enter_node-fresh :
    (ms : String → Option ℕ) (x : NodeExecution) (outcome target : String) (a a' : Attempt)
    (s : RunState)
    → enter_node ms x outcome target a ≡ ok (a', s)
    → (row : NodeExecution) × (a'.executions ≡ a.executions ++ row ∷ [])
      × (row.node_key ≡ target)
      × All (λ y. y.execution_seq < row.execution_seq) a.executions
      × All (λ y. y.node_key ≡ row.node_key → y.visit < row.visit) a.executions
enter_node-fresh ms x outcome target a a' s h =
    let (e, _) = enter_node_lem ms x outcome target a a' s h in
    (
      e.row,
      e.executions_eq,
      e.keyed,
      All-weaken a.executions (λ y b. omega (arith, b, e.numbered)) (seqs_below a.executions),
      All-weaken a.executions (λ y b q. omega (arith, b (q ∙ e.keyed), e.visited))
          (visits_below target a.executions),
    )

-- A run that has not ended and has begun.
abbrev pub is_active : RunState → Bool
is_active RunState.running = true
is_active RunState.awaiting_approval = true
is_active _ = false

finish_run_state :
    (x : NodeExecution) (outcome : String) (a : Attempt)
    → (finish_run x outcome a).run ≡ RunState.succeeded
unfolding finish_run credit_value
finish_run_state x outcome a = ground arith

module _ (ms : String → Option ℕ) (x : NodeExecution) where
  follow_route_state :
      (outcome : String) (to : Routing) (a : Attempt) (r : Attempt × RunState)
      → is_active a.run ≡ true
      → follow_route ms x outcome to a ≡ ok r
      → r.0.run ≡ r.1
  unfolding follow_route
  follow_route_state outcome no_route a r v h = cc
  follow_route_state outcome terminal a r v h =
      subst (λ (q : Attempt × RunState). q.0.run ≡ q.1)
        (ok-injective (finish_run x outcome a, RunState.succeeded) r h)
        (finish_run_state x outcome a)
  follow_route_state outcome (next target) a r v h =
      elim (Bool-cases (leb a.spec.graph.max_transitions (count_transitions a.transitions))) [
        | inl full ↦
            subst (λ (q : Attempt × RunState). q.0.run ≡ q.1)
              (ok-injective (exceed_limit x a, RunState.failed) r (rw full at h))
              (unfold exceed_limit in refl)
        | inr below ↦
            let (e, s) = enter_node_lem ms x outcome target a r.0 r.1 (rw below at h) in
            e.run_eq ∙ resumed_active a.run v ∙ sym s
      ]
    where
      resumed_active : (q : RunState) → is_active q ≡ true → resumed q ≡ RunState.running
      resumed_active q w = ground (arith, w)

  advance_graph_state :
      (a : Attempt) (r : Attempt × RunState)
      → is_active a.run ≡ true
      → advance_graph ms x a ≡ ok r
      → r.0.run ≡ r.1
  unfolding advance_graph
  advance_graph_state a r v h =
      let (outcome, _, h₁) = >>=-eq-ok (or_fail x.completion_outcome _) _ h in
      let (n, _, h₂) = >>=-eq-ok (or_fail (find_node a.spec.graph.nodes x.node_key) _) _ h₁ in
      let (_, h₃) = >>-eq-ok (reject_if (not (n.kind ==ₛ x.kind)) (node_changed x.node_key)) _ h₂ in
      let (_, h₄) =
        >>-eq-ok (reject_if (not (contains n.outcomes outcome)) (outcome_undeclared outcome)) _
          h₃ in
      follow_route_state outcome (route a.spec.graph x.node_key outcome)
        (log "node_completed" (some x.execution_seq) a) r v h₄

-- CompleteTurn reports the state that the run's row has after it, for a run that was active.
pub complete_turn_state :
    (ms : String → Option ℕ) (seq : ℕ) (reason : String) (failure : Option String) (a a' : Attempt)
    (s : RunState)
    → is_active a.run ≡ true
    → complete_turn ms seq reason failure a ≡ ok (a', s)
    → a'.run ≡ s
unfolding complete_turn
complete_turn_state ms seq reason failure a a' s v h =
    let (x, _, h₁) = >>=-eq-ok (or_fail (find_execution seq a.executions) _) _ h in
    let (_, h₂) = >>-eq-ok (reject_if (not (is_running a.turn)) (turn_state a.turn)) _ h₁ in
    elim (Bool-cases
      (not (reason ==ₛ "completed") || is_none x.completion_outcome || not x.completion_reported)) [
        | inl failed ↦
            subst (λ (q : Attempt × RunState). q.0.run ≡ q.1)
              (ok-injective (fail_run ms x reason failure a) (a', s) (rw failed at h₂))
              (unfold fail_run in refl)
        | inr done ↦ advance_graph_state ms x _ (a', s) v (rw done at h₂)
      ]
