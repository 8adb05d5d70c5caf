-- ===== src/Runtime/Rows.antt =====
-- The tables of control-plane/internal/runtime/store.go, with the states and event kinds its constants
-- name. A run, a step and a turn are stored under their ids. Left out are an event's id, `updated_at`,
-- the `created_at` of a step and a turn, by which nothing is ordered, and a turn's node execution, which this
-- code never sets. A time is a native number.
use iterabase_mono.Common.{
  ℕ, String, Bool, true, false, Option, none, some, List, [], ◌∷◌, ◌||◌, ◌==ₛ◌, contains,
  if◌then◌else◌,
}
use iterabase_mono.Work.Attempt.{RunState}

pub data StepState : Type 0 where
  pending running succeeded failed skipped : StepState

pub data TurnState : Type 0 where
  pending running succeeded failed aborted : TurnState

pub record Run : Type 0 where
  pub kind : String
  pub definition_key : Option String
  pub scope_identity_id : String
  pub session_id : String
  pub session_dir : String
  pub trigger : String
  pub state : RunState
  pub created_at : ℕ
  pub started_at : Option ℕ
  pub finished_at : Option ℕ

pub record Step : Type 0 where
  pub run_id : String
  pub seq : ℕ
  pub kind : String
  pub config : String
  pub state : StepState
  pub started_at : Option ℕ
  pub finished_at : Option ℕ

pub record Turn : Type 0 where
  pub run_id : String
  pub step_id : Option String
  pub session_id : String
  pub model : Option String
  pub state : TurnState
  pub started_at : Option ℕ
  pub settled_at : Option ℕ

-- A payload: a text that a caller hands in, or one of the two objects that the store marshals.
pub data Payload : Type 0 where
  raw : String → Payload
  turn_model : String → Payload
  settlement : String → ℕ → Payload

pub record Event : Type 0 where
  pub run_id : String
  pub turn_id : Option String
  pub step_id : Option String
  pub seq : ℕ
  pub kind : String
  pub payload : Payload
  pub ts : ℕ

pub record Database : Type 0 where
  pub runs : List (String × Run)
  pub steps : List (String × Step)
  pub turns : List (String × Turn)
  pub events : List Event

pub record StepInput : Type 0 where
  pub seq : ℕ
  pub kind : String
  pub config : String

pub record CreateRunInput : Type 0 where
  pub kind : String
  pub definition_key : String
  pub scope_identity_id : String
  pub session_id : String
  pub session_dir : String
  pub trigger : String
  pub steps : List StepInput

-- The errors of the store, then the constraints of the schema.
pub data StoreError : Type 0 where
  not_found : StoreError
  run_state_is : RunState → StoreError
  step_state_is : StepState → StoreError
  turn_state_is : TurnState → StoreError
  invalid_reason : String → StoreError
  duplicate_key check_violation missing_reference : StoreError
  session_busy step_running : StoreError

unfoldable pub is_terminal_run : RunState → Bool
is_terminal_run RunState.succeeded = true
is_terminal_run RunState.failed = true
is_terminal_run RunState.aborted = true
is_terminal_run _ = false

unfoldable pub is_step_terminal : StepState → Bool
is_step_terminal StepState.succeeded = true
is_step_terminal StepState.failed = true
is_step_terminal StepState.skipped = true
is_step_terminal _ = false

unfoldable pub turn_state_for_reason : String → Option TurnState
turn_state_for_reason reason =
    if reason ==ₛ "completed"
    then some TurnState.succeeded
    else if reason ==ₛ "failed"
    then some TurnState.failed
    else if reason ==ₛ "aborted"
    then some TurnState.aborted
    else none

abbrev pub nullable : String → Option String
nullable s = if s ==ₛ "" then none else some s

abbrev pub str_ptr : Option String → String
str_ptr none = ""
str_ptr (some s) = s

abbrev pub json_b : String → String
json_b b = if b ==ₛ "" then "{}" else b

abbrev pub json_payload : Payload → Payload
json_payload (raw b) = raw (json_b b)
json_payload p = p

-- The states of the predicate of idx_turns_one_active_per_session.
unfoldable pub is_active_turn : TurnState → Bool
is_active_turn TurnState.pending = true
is_active_turn TurnState.running = true
is_active_turn _ = false

-- `state = ANY(...)`, over the texts of the states.
abbrev pub run_state_text : RunState → String
run_state_text RunState.pending = "pending"
run_state_text RunState.running = "running"
run_state_text RunState.awaiting_approval = "awaiting_approval"
run_state_text RunState.succeeded = "succeeded"
run_state_text RunState.failed = "failed"
run_state_text RunState.aborted = "aborted"

unfoldable pub is_any_run : List RunState → RunState → Bool
is_any_run [] s = false
is_any_run (x ∷ xs) s = run_state_text x ==ₛ run_state_text s || is_any_run xs s

abbrev pub step_state_text : StepState → String
step_state_text StepState.pending = "pending"
step_state_text StepState.running = "running"
step_state_text StepState.succeeded = "succeeded"
step_state_text StepState.failed = "failed"
step_state_text StepState.skipped = "skipped"

unfoldable pub is_any_step : List StepState → StepState → Bool
is_any_step [] s = false
is_any_step (x ∷ xs) s = step_state_text x ==ₛ step_state_text s || is_any_step xs s

-- The run-level events.
unfoldable pub is_run_event : String → Bool
is_run_event kind =
    contains
      ("run_started" ∷ "run_succeeded" ∷ "run_failed" ∷ "run_aborted" ∷ "run_awaiting_approval"
        ∷ "run_resumed" ∷ [])
      kind
