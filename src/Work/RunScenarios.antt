-- ===== src/Work/RunScenarios.antt =====
-- A run of the small graph: the draft is completed, and then reviewed.
use iterabase_mono.Common.{
  ℕ, ◌+◌, ◌≤◌, ◌<◌, String, ◌≡◌, refl, ◌↔◌, true, false, Option, none, some, [], ◌∷◌, ◌++◌, All,
  arith, contains, eq_iff,
}
use iterabase_mono.Common.Result.{Result, ok, err}
use iterabase_mono.Workflow.Spec.{Node}
use iterabase_mono.Workflow.Walk.{walk}
use iterabase_mono.Workflow.Walk.Correct.{Reaches, contains-walk}
use iterabase_mono.Work.Routing.{find_node, route}
use iterabase_mono.Work.Attempt.{
  RunState, NodeState, NodeExecution, Attempt, count_transitions, find_execution, last_seq,
}
use iterabase_mono.Work.Advance.{AdvanceError, enter_node, advance_graph, complete_turn}
use iterabase_mono.Work.Gate.{complete_human_node, link_inputs, is_input, answer_execution}
use iterabase_mono.Work.Bounds.{IsValid}
use iterabase_mono.Work.Limit.{complete_turn-IsValid, Turns, start, turn, runs_bounded}
use iterabase_mono.Work.Numbering.{enter_node-fresh, complete_turn_state}
use iterabase_mono.Work.Total.{IsDeclared, complete_turn_total}
use iterabase_mono.Work.Scenarios.{draft, letters, env, letters_valid}

abbrev ms : String → Option ℕ
ms d = some 600000

abbrev drafting : NodeExecution
drafting = record {
  node_key = "draft";
  visit = 1;
  execution_seq = 1;
  kind = "agent_task";
  context = record { previous = 0; latest = [] };
  model = some "small";
  skills = "writing" ∷ [];
  capabilities = "mail.search" ∷ [];
  workspace_tools = true;
  timeout_ms = some 600000;
  state = NodeState.running;
  completion_outcome = some "ready";
  completion_reported = true;
  artifact_refs = [];
}

abbrev begun : Attempt
begun = record {
  spec = letters;
  number = 1;
  valued = true;
  run = RunState.running;
  turn = RunState.running;
  finished = false;
  failure = none;
  executions = drafting ∷ [];
  transitions = [];
  links = [];
  credited = false;
  timeline = [];
}

begun-IsValid : IsValid begun
unfolding count_transitions
begun-IsValid = record { bounded = omega arith; counted = refl; ended = refl }

drafting_held : find_execution 1 begun.executions ≡ some drafting
drafting_held = refl

drafting-IsDeclared : IsDeclared letters drafting draft
drafting-IsDeclared = record {
  known = unfold find_node in refl;
  same_kind = refl;
  declared = λ outcome e. ground (arith, e, eq_iff "ready" outcome);
}

gates_untimed :
    (key : String) (n : Node)
    → find_node letters.graph.nodes key ≡ some n
    → n.kind ≡ "human_gate"
    → n.timeout ≡ ""
unfolding find_node
gates_untimed key n e gate = ground (arith, e, gate, eq_iff "agent_task" "human_gate")

complete_turn_total_example :
    (r : Attempt × RunState) × (complete_turn ms 1 "completed" none begun ≡ ok r)
complete_turn_total_example =
    complete_turn_total env ms 1 "completed" none begun drafting draft letters_valid (λ d. refl)
      gates_untimed (λ key n found e. ground (arith, e)) drafting_held drafting-IsDeclared refl

-- The attempt once the draft is completed, as the code computes it.
abbrev after : Result AdvanceError (Attempt × RunState) → Attempt
after (ok (a, _)) = a
after (err _) = begun

abbrev reviewing : Attempt
reviewing = after (complete_turn ms 1 "completed" none begun)

drafted : complete_turn ms 1 "completed" none begun ≡ ok (reviewing, RunState.running)
unfolding complete_turn find_node route count_transitions
drafted = refl

one_turn : Turns ms begun 1 reviewing
one_turn = turn 1 "completed" none start drafted

runs_bounded_example : 1 + count_transitions begun.transitions ≤ letters.graph.max_transitions
runs_bounded_example = runs_bounded ms begun reviewing 1 begun-IsValid one_turn

complete_turn-IsValid_example : IsValid reviewing
complete_turn-IsValid_example =
    complete_turn-IsValid ms 1 "completed" none begun reviewing RunState.running begun-IsValid
      drafted

complete_turn_state_example : reviewing.run ≡ RunState.running
complete_turn_state_example =
    complete_turn_state ms 1 "completed" none begun reviewing RunState.running refl drafted

abbrev waiting : Attempt
waiting = record begun {
  run = RunState.awaiting_approval;
  executions = record drafting { state = NodeState.blocked } ∷ [];
}

-- An answer with a file goes on to the review, which takes the file over.
answered :
    (after (complete_human_node ms 1 "ready" ("f1" ∷ []) waiting)).links
    ≡ record { artifact = "f1"; execution = 1; role = "input" }
      ∷ record { artifact = "f1"; execution = 2; role = "input" }
      ∷ []
unfolding complete_human_node find_node route count_transitions advance_graph link_inputs is_input
    last_seq answer_execution
answered = refl

abbrev entered : Attempt
entered = after (enter_node ms drafting "ready" "review" begun)

entered_ok : enter_node ms drafting "ready" "review" begun ≡ ok (entered, RunState.running)
unfolding enter_node find_node
entered_ok = refl

enter_node-fresh_example :
    (row : NodeExecution) × (entered.executions ≡ begun.executions ++ row ∷ [])
    × (row.node_key ≡ "review")
    × All (λ (y : NodeExecution). y.execution_seq < row.execution_seq) begun.executions
    × All (λ (y : NodeExecution). y.node_key ≡ row.node_key → y.visit < row.visit) begun.executions
enter_node-fresh_example =
    enter_node-fresh ms drafting "ready" "review" begun entered RunState.running entered_ok

contains-walk_example :
    (contains (walk "a" (("a", "b" ∷ "c" ∷ []) ∷ ("b", "a" ∷ []) ∷ [])) "c" ≡ true)
    ↔ Reaches (("a", "b" ∷ "c" ∷ []) ∷ ("b", "a" ∷ []) ∷ []) "a" "c"
contains-walk_example = contains-walk (("a", "b" ∷ "c" ∷ []) ∷ ("b", "a" ∷ []) ∷ []) "a" "c"
