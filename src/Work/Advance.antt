-- ===== src/Work/Advance.antt =====
-- CompleteTurn and advanceGraphTx of control-plane/internal/work/graph.go, with buildContextTx,
-- insertNodeExecutionTx and creditValueTx. An error rolls the transaction back, so it carries no
-- attempt. Of the constraints of the database only the one on an execution's timeout can refuse a
-- statement here; the snapshots of the graph, the models and the spec decode, and a value model's snapshot too. `time.ParseDuration` with
-- the test `d <= 0`, then `d.Milliseconds()`, is the parameter `milliseconds`.
use iterabase_mono.Common.{
  ℕ, ◌+◌, String, Bool, true, false, not, ◌&&◌, ◌||◌, Option, none, some, List, [], ◌∷◌, ◌++◌, ◌==◌,
  ◌==ₛ◌, leb, contains, if◌then◌else◌,
}
use iterabase_mono.Common.Dict.{insert, is_none}
use iterabase_mono.Common.Result.{Result, ok, err, ◌>>=◌, ◌>>◌, reject_if, or_fail}
use iterabase_mono.Workflow.Spec.{Node, Spec, agent_task}
use iterabase_mono.Work.Routing.{find_node, Routing, terminal, next, no_route, route}
use iterabase_mono.Work.Attempt.{
  RunState, NodeState, Context, NodeExecution, Link, Attempt, last_visit, last_seq,
  count_transitions, find_execution, set_state,
}

pub data AdvanceError : Type 0 where
  not_found outcome_missing : AdvanceError
  turn_state : RunState → AdvanceError
  node_state : NodeState → AdvanceError
  check_violation : String → AdvanceError
  node_changed target_missing invalid_timeout : String → AdvanceError
  outcome_undeclared : String → AdvanceError
  route_missing : String → String → AdvanceError

abbrev pub log : String → Option ℕ → Attempt → Attempt
log code execution a = record a {
  timeline = a.timeline ++ record { code = code; execution = execution } ∷ [];
}

is_succeeded : NodeState → Bool
is_succeeded NodeState.succeeded = true
is_succeeded _ = false

-- The highest visit of each node that has succeeded.
unfoldable pub latest_by_node : List NodeExecution → List NodeExecution → List (String × ℕ)
unfolding is_succeeded
latest_by_node all [] = []
latest_by_node all (x ∷ xs) =
    let rest = latest_by_node all xs in
    if is_succeeded x.state && x.visit == last_visit x.node_key (succeeded_only all)
    then insert x.node_key x.execution_seq rest
    else rest
  where
    succeeded_only : List NodeExecution → List NodeExecution
    succeeded_only [] = []
    succeeded_only (y ∷ ys) =
        let rest = succeeded_only ys in if is_succeeded y.state then y ∷ rest else rest

unfoldable pub build_context : List NodeExecution → NodeExecution → Context
build_context executions previous = record {
  previous = previous.execution_seq;
  latest = latest_by_node executions executions;
}

-- The names that the spec declares, in the node's order.
declared : List String → List String → List String
declared known [] = []
declared known (name ∷ names) =
    let rest = declared known names in if contains known name then name ∷ rest else rest

-- `none` for an invalid timeout.
unfoldable pub timeout_of : (String → Option ℕ) → String → Option (Option ℕ)
timeout_of milliseconds timeout =
    if timeout ==ₛ ""
    then some none
    else elim (milliseconds timeout) [ none ↦ none | some ms ↦ some (some ms) ]

-- `CHECK (timeout_ms IS NULL OR timeout_ms > 0)` refuses a time of less than a millisecond.
abbrev pub is_zero : Option ℕ → Bool
is_zero none = false
is_zero (some ms) = ms == 0

model_of : Spec → Node → Option String
model_of spec n =
    if n.kind ==ₛ agent_task
    then some (if n.model_ref ==ₛ "" then spec.default_model_ref else n.model_ref)
    else none

unfoldable pub new_execution : Spec → Node → ℕ → ℕ → Context → Option ℕ → NodeExecution
unfolding declared model_of
new_execution spec n visit seq context timeout = record {
  node_key = n.key;
  visit = visit;
  execution_seq = seq;
  kind = n.kind;
  context = context;
  model = model_of spec n;
  skills = declared spec.skill_names n.skills;
  capabilities = declared spec.capability_tools n.capabilities;
  workspace_tools = n.workspace_tools;
  timeout_ms = timeout;
  state = NodeState.pending;
  completion_outcome = none;
  completion_reported = false;
  artifact_refs = [];
}

unfoldable pub insert_node_execution :
    (String → Option ℕ)
    → Spec
    → Node
    → ℕ
    → ℕ
    → Context
    → List NodeExecution
    → Result AdvanceError (List NodeExecution)
unfolding new_execution timeout_of
insert_node_execution milliseconds spec n visit seq context executions = do
  timeout ← or_fail (timeout_of milliseconds n.timeout) (invalid_timeout n.timeout)
  reject_if (is_zero timeout) (check_violation "timeout_ms")
  ok (executions ++ new_execution spec n visit seq context timeout ∷ [])

unfoldable pub credit_value : Attempt → Attempt
credit_value a =
    if not (a.number == 1) || not a.valued || a.credited
    then a
    else log "value_credited" none (record a { credited = true })

holds_link : String → ℕ → List Link → Bool
holds_link artifact execution [] = false
holds_link artifact execution (l ∷ ls) =
    l.artifact ==ₛ artifact && l.execution == execution || holds_link artifact execution ls

-- The artifacts that the next execution takes over: the current one's inputs and sources, and those
-- that its completion selected.
unfoldable pub hand_over : NodeExecution → ℕ → List Link → List Link → List Link
unfolding holds_link
hand_over x target [] links = links
hand_over x target (l ∷ ls) links = hand_over x target ls (
    if l.execution == x.execution_seq
      && (l.role ==ₛ "source" || l.role ==ₛ "input" || contains x.artifact_refs l.artifact)
      && not (holds_link l.artifact target links)
    then links ++ record { artifact = l.artifact; execution = target; role = "input" } ∷ []
    else links)

abbrev pub is_running : RunState → Bool
is_running RunState.running = true
is_running _ = false

abbrev pub resumed : RunState → RunState
resumed RunState.awaiting_approval = RunState.running
resumed run = run

unfoldable pub finish_run : NodeExecution → String → Attempt → Attempt
unfolding credit_value
finish_run x outcome a = log "work_completed" (some x.execution_seq) (
    credit_value (record a {
      run = RunState.succeeded;
      finished = true;
      transitions =
          a.transitions
          ++ record { source = x.execution_seq; outcome = outcome; target = none } ∷ [];
    }))

unfoldable pub exceed_limit : NodeExecution → Attempt → Attempt
exceed_limit x a =
    log "work_failed" (some x.execution_seq)
      (record a { run = RunState.failed; finished = true; failure = some "transition_limit" })

module _ (milliseconds : String → Option ℕ) where
  unfoldable pub enter_node :
      NodeExecution → String → String → Attempt → Result AdvanceError (Attempt × RunState)
  unfolding build_context insert_node_execution hand_over
  enter_node x outcome target a = do
    n ← or_fail (find_node a.spec.graph.nodes target) (target_missing target)
    executions ←
        insert_node_execution milliseconds a.spec n (last_visit target a.executions + 1)
          (last_seq a.executions + 1) (build_context a.executions x) a.executions
    ok (
      record a {
        executions = executions;
        links = hand_over x (last_seq a.executions + 1) a.links a.links;
        transitions =
            a.transitions
            ++ record {
              source = x.execution_seq;
              outcome = outcome;
              target = some (last_seq a.executions + 1);
            }
              ∷ [];
        run = resumed a.run;
      },
      RunState.running,
    )

  unfoldable pub follow_route :
      NodeExecution → String → Routing → Attempt → Result AdvanceError (Attempt × RunState)
  unfolding finish_run exceed_limit enter_node
  follow_route x outcome no_route a = err (route_missing x.node_key outcome)
  follow_route x outcome terminal a = ok (finish_run x outcome a, RunState.succeeded)
  follow_route x outcome (next target) a =
      if leb a.spec.graph.max_transitions (count_transitions a.transitions)
      then ok (exceed_limit x a, RunState.failed)
      else enter_node x outcome target a

  unfoldable pub advance_graph : NodeExecution → Attempt → Result AdvanceError (Attempt × RunState)
  unfolding follow_route
  advance_graph x a = do
    outcome ← or_fail x.completion_outcome outcome_missing
    n ← or_fail (find_node a.spec.graph.nodes x.node_key) (node_changed x.node_key)
    reject_if (not (n.kind ==ₛ x.kind)) (node_changed x.node_key)
    reject_if (not (contains n.outcomes outcome)) (outcome_undeclared outcome)
    follow_route x outcome (route a.spec.graph x.node_key outcome)
        (log "node_completed" (some x.execution_seq) a)

  -- A turn that did not complete its step ends the run.
  unfoldable pub fail_run : NodeExecution → String → Option String → Attempt → Attempt × RunState
  fail_run x reason failure a =
      let to : RunState = if reason ==ₛ "aborted" then RunState.aborted else RunState.failed in
      (
        log "work_failed" (some x.execution_seq) (record a {
          turn = to;
          executions = set_state x.execution_seq NodeState.failed a.executions;
          run = to;
          finished = true;
          failure = failure;
        }),
        to,
      )

  -- `seq` is the execution of the turn.
  unfoldable pub complete_turn :
      ℕ → String → Option String → Attempt → Result AdvanceError (Attempt × RunState)
  unfolding advance_graph fail_run
  complete_turn seq reason failure a = do
    x ← or_fail (find_execution seq a.executions) not_found
    reject_if (not (is_running a.turn)) (turn_state a.turn)
    (if not (reason ==ₛ "completed") || is_none x.completion_outcome || not x.completion_reported
        then ok (fail_run x reason failure a)
        else advance_graph x (record a {
          turn = RunState.succeeded;
          executions = set_state seq NodeState.succeeded a.executions;
        }))
