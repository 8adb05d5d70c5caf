-- ===== src/Work/Attempt.antt =====
-- The rows of one attempt that control-plane/internal/work/graph.go and store.go read and write when
-- a node completes: its run, its turn, node executions, transitions, artifact links, value ledger
-- and timeline. An execution's id is its `execution_seq`. The texts that the rows only carry on
-- (labels, prompts, presentations, summaries, event parameters) and the clock are left out.
use Prim.Native.Nat.{max}
use iterabase_mono.Common.{
  ℕ, ◌+◌, String, Bool, Option, none, some, List, [], ◌∷◌, ◌==◌, ◌==ₛ◌, if◌then◌else◌,
}
use iterabase_mono.Workflow.Spec.{Spec}

-- The states of runtime/store.go, of runs and turns, and of executions.
pub data RunState : Type 0 where
  pending running awaiting_approval succeeded failed aborted : RunState

pub data NodeState : Type 0 where
  pending running blocked succeeded failed : NodeState

-- `contextValue`: the execution that came before, and the latest one of each node. The source, its
-- artifacts and the guidance, which it copies from the item and the attempt, are left out.
pub record Context : Type 0 where
  pub previous : ℕ
  pub latest : List (String × ℕ)

pub record NodeExecution : Type 0 where
  pub node_key : String
  pub visit : ℕ
  pub execution_seq : ℕ
  pub kind : String
  pub context : Context
  pub model : Option String
  pub skills : List String
  pub capabilities : List String
  pub workspace_tools : Bool
  pub timeout_ms : Option ℕ
  pub state : NodeState
  pub completion_outcome : Option String
  pub completion_reported : Bool
  pub artifact_refs : List String

-- A row of `runtime.graph_transitions`; `target` is `none` for a terminal one.
pub record Transition : Type 0 where
  pub source : ℕ
  pub outcome : String
  pub target : Option ℕ

-- A row of `work.artifact_links`.
pub record Link : Type 0 where
  pub artifact : String
  pub execution : ℕ
  pub role : String

pub record Event : Type 0 where
  pub code : String
  pub execution : Option ℕ

-- `valued` is whether the attempt has a value model with a snapshot.
pub record Attempt : Type 0 where
  pub spec : Spec
  pub number : ℕ
  pub valued : Bool
  pub run : RunState
  pub turn : RunState
  pub finished : Bool
  pub failure : Option String
  pub executions : List NodeExecution
  pub transitions : List Transition
  pub links : List Link
  pub credited : Bool
  pub timeline : List Event

-- `COALESCE(MAX(visit),0)` of a node's executions.
unfoldable pub last_visit : String → List NodeExecution → ℕ
last_visit key [] = 0
last_visit key (x ∷ xs) =
    let rest = last_visit key xs in if x.node_key ==ₛ key then max x.visit rest else rest

-- `COALESCE(MAX(execution_seq),0)`
unfoldable pub last_seq : List NodeExecution → ℕ
last_seq [] = 0
last_seq (x ∷ xs) = max x.execution_seq (last_seq xs)

-- `COUNT(*) ... WHERE NOT terminal`
unfoldable pub count_transitions : List Transition → ℕ
count_transitions [] = 0
count_transitions (t ∷ ts) =
    let rest = count_transitions ts in elim t.target [ none ↦ rest | some _ ↦ 1 + rest ]

abbrev pub find_execution : ℕ → List NodeExecution → Option NodeExecution
find_execution seq [] = none
find_execution seq (x ∷ xs) = if x.execution_seq == seq then some x else find_execution seq xs

unfoldable pub set_state : ℕ → NodeState → List NodeExecution → List NodeExecution
set_state seq state [] = []
set_state seq state (x ∷ xs) =
    (if x.execution_seq == seq then record x { state = state } else x) ∷ set_state seq state xs
