-- ===== src/Work/Bounds.antt =====
-- How far the completions of control-plane/internal/work/graph.go can take a run: the transition
-- limit, and the numbering of executions.
use iterabase_mono.Common.{
  ℕ, suc, ◌+◌, ◌≤◌, String, ◌≡◌, refl, ap, Bool, true, false, Option, none, List, [], ◌∷◌, ◌++◌,
  length, arith, Option-cases,
}
use iterabase_mono.Work.Attempt.{
  RunState, NodeState, NodeExecution, Transition, Attempt, count_transitions, set_state,
}
use iterabase_mono.Work.Advance.{fail_run, credit_value, finish_run, exceed_limit}

-- A run is over exactly when its attempt is finished.
abbrev pub is_over : RunState → Bool
is_over RunState.succeeded = true
is_over RunState.failed = true
is_over RunState.aborted = true
is_over _ = false

-- Each execution but the first was entered by a transition, and the transitions keep to the limit.
pub record IsValid (a : Attempt) : Type 0 where
  pub bounded : count_transitions a.transitions ≤ a.spec.graph.max_transitions
  pub counted : length a.executions ≡ suc (count_transitions a.transitions)
  pub ended : is_over a.run ≡ a.finished

pub count-append :
    (ts us : List Transition)
    → count_transitions (ts ++ us) ≡ count_transitions ts + count_transitions us
unfolding count_transitions
count-append [] us = omega arith
count-append (t ∷ ts) us = ground (arith, count-append ts us, Option-cases t.target)

pub length-set_state :
    (seq : ℕ) (s : NodeState) (xs : List NodeExecution) → length (set_state seq s xs) ≡ length xs
unfolding set_state
length-set_state seq s [] = refl
length-set_state seq s (x ∷ xs) = ap suc (length-set_state seq s xs)

-- The attempt after a run ends at a terminal outcome.
pub finish_run-IsValid :
    (x : NodeExecution) (outcome : String) (a : Attempt)
    → IsValid a
    → IsValid (finish_run x outcome a)
unfolding finish_run credit_value count_transitions
finish_run-IsValid x outcome a v = ground (
  arith,
  v,
  count-append a.transitions
      (record { source = x.execution_seq; outcome = outcome; target = none } ∷ []),
)

pub exceed_limit-IsValid :
    (x : NodeExecution) (a : Attempt) → IsValid a → IsValid (exceed_limit x a)
unfolding exceed_limit
exceed_limit-IsValid x a v = ground (arith, v)

pub fail_run-IsValid :
    (ms : String → Option ℕ) (x : NodeExecution) (reason : String) (failure : Option String)
    (a : Attempt)
    → IsValid a
    → IsValid (fail_run ms x reason failure a).0
unfolding fail_run
fail_run-IsValid ms x reason failure a v =
    ground (arith, v, length-set_state x.execution_seq NodeState.failed a.executions)
