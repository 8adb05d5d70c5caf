-- ===== src/Work/Gate.antt =====
-- completeHumanNodeTx of control-plane/internal/work/commands.go: the answer to the blocker of a human node,
-- which advances the graph as the completion of a turn does. The response's text and the references' metadata
-- are left out, and the checks of ResolveBlocker are made before.
use iterabase_mono.Common.{
  ℕ, String, Bool, true, false, not, ◌&&◌, ◌||◌, Option, some, List, [], ◌∷◌, ◌++◌, ◌==◌, ◌==ₛ◌,
  if◌then◌else◌,
}
use iterabase_mono.Common.Result.{Result, ◌>>=◌, ◌>>◌, reject_if, or_fail}
use iterabase_mono.Work.Attempt.{RunState, NodeState, NodeExecution, Link, Attempt, find_execution}
use iterabase_mono.Work.Advance.{AdvanceError, not_found, node_state, log, advance_graph}

abbrev pub is_blocked : NodeState → Bool
is_blocked NodeState.blocked = true
is_blocked _ = false

-- `UPDATE runtime.node_executions SET state='succeeded', ... WHERE id=$1`
unfoldable pub answer_execution : ℕ → String → List String → List NodeExecution → List NodeExecution
answer_execution seq outcome refs [] = []
answer_execution seq outcome refs (x ∷ xs) =
    (if x.execution_seq == seq
      then record x {
        state = NodeState.succeeded;
        completion_outcome = some outcome;
        completion_reported = true;
        artifact_refs = refs;
      }
      else x)
    ∷ answer_execution seq outcome refs xs

unfoldable pub is_input : String → ℕ → List Link → Bool
is_input artifact execution [] = false
is_input artifact execution (l ∷ ls) =
    l.artifact ==ₛ artifact && (l.execution == execution && l.role ==ₛ "input")
    || is_input artifact execution ls

-- A link that is there already is kept.
unfoldable pub link_inputs : ℕ → List String → List Link → List Link
link_inputs seq [] links = links
link_inputs seq (ref ∷ refs) links = link_inputs seq refs (
    if is_input ref seq links
    then links
    else links ++ record { artifact = ref; execution = seq; role = "input" } ∷ [])

unfoldable pub complete_human_node :
    (String → Option ℕ)
    → ℕ
    → String
    → List String
    → Attempt
    → Result AdvanceError (Attempt × RunState)
complete_human_node milliseconds seq outcome refs a = do
  x ← or_fail (find_execution seq a.executions) not_found
  reject_if (not (is_blocked x.state)) (node_state x.state)
  advance_graph milliseconds
      (record x {
        state = NodeState.succeeded;
        completion_outcome = some outcome;
        artifact_refs = refs;
      })
      (log "blocker_resolved" (some seq) (record a {
        executions = answer_execution seq outcome refs a.executions;
        links = link_inputs seq refs a.links;
      }))
