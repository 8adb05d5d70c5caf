-- ===== src/Runtime/Settlement.antt =====
-- StartTurn, SettleTurn, SettleTurnAndAdvance and AppendEvent of control-plane/internal/runtime/store.go.
use iterabase_mono.Common.{ℕ, String, Option, none, some, List, [], ◌∷◌, ◌==ₛ◌, if◌then◌else◌}
use iterabase_mono.Work.Attempt.{RunState}
use iterabase_mono.Runtime.Rows.{
  StepState, TurnState, Run, Step, Turn, Payload, turn_model, settlement, Event, Database,
  turn_state_is, invalid_reason, turn_state_for_reason, nullable, str_ptr,
}
use iterabase_mono.Runtime.Statements.{
  Tx, ◌>>=◌, ◌>>◌, pure, fail, read, found, get, insert_turn, settle_row, update_run, update_step,
  append_event_tx,
}
use iterabase_mono.Runtime.Transitions.{empty_payload, row_or}
use iterabase_mono.Runtime.Queries.{next_pending}

abbrev pub new_turn : String → String → String → String → Turn
new_turn run step session model_name = record {
  run_id = run;
  step_id = nullable step;
  session_id = session;
  model = nullable model_name;
  state = TurnState.running;
  started_at = none;
  settled_at = none;
}

unfoldable pub start_turn : ℕ → String → String → String → String → Tx Turn
start_turn now id run step model_name = do
  r ← get Database.runs run
  insert_turn id (new_turn run step r.session_id model_name)
  append_event_tx now run id step "turn_started" (turn_model model_name)
  pure (new_turn run step r.session_id model_name)

unfoldable pub turn_transition_err : {A : Type 0} → String → Tx A
turn_transition_err id = do t ← get Database.turns id; fail (turn_state_is t.state)

-- The CAS that both settlements start with, and its audit event.
unfoldable pub settle_and_log : ℕ → String → String → TurnState → ℕ → Tx Turn
settle_and_log now id reason to message_count = do
  updated ← settle_row now id to
  t ← row_or updated (turn_transition_err id)
  append_event_tx now t.run_id id (str_ptr t.step_id) "settled" (settlement reason message_count)
  pure t

unfoldable pub settle_turn : ℕ → String → String → ℕ → Tx Turn
settle_turn now id reason message_count = do
  to ← found (turn_state_for_reason reason) (invalid_reason reason)
  settle_and_log now id reason to message_count

-- The update of the turn's step: no error when the step is not running.
unfoldable pub finish_step : ℕ → String → String → Option String → Tx (Unit {0})
finish_step now reason run none = pure tt
finish_step now reason run (some step) = if step ==ₛ "" then pure tt else (do
  let completed = reason ==ₛ "completed"
  let to = if completed then StepState.succeeded else StepState.failed
  update_step step (StepState.running ∷ []) (λ s. record s { state = to; finished_at = some now })
  append_event_tx now run "" step (if completed then "step_succeeded" else "step_failed")
      empty_payload
  pure tt)

-- `SET state = $2, finished_at = now()`
abbrev pub finished_run : ℕ → RunState → Run → Run
finished_run now to r = record r { state = to; finished_at = some now }

-- An update of the run whose guard may match no row, and its event.
unfoldable pub finish_run : ℕ → String → List RunState → RunState → String → Tx RunState
finish_run now run from to kind = do
  update_run run from (finished_run now to)
  append_event_tx now run "" "" kind empty_payload
  pure to

unfoldable pub start_next : ℕ → String → String → Tx RunState
start_next now run step = do
  update_step step (StepState.pending ∷ []) (λ s. record s {
    state = StepState.running;
    started_at = elim s.started_at [ none ↦ some now | some t ↦ some t ];
  })
  append_event_tx now run "" step "step_started" empty_payload
  pure RunState.running

-- Start the next pending step, or succeed the run if none remain.
unfoldable pub succeed_or_start : ℕ → String → Option (String × Step) → Tx RunState
succeed_or_start now run none =
    finish_run now run (RunState.running ∷ []) RunState.succeeded "run_succeeded"
succeed_or_start now run (some e) = start_next now run e.0

unfoldable pub advance_run_after_settle_tx : ℕ → String → String → Tx RunState
advance_run_after_settle_tx now run reason =
    if reason ==ₛ "aborted"
    then finish_run now run (RunState.running ∷ RunState.awaiting_approval ∷ []) RunState.aborted
        "run_aborted"
    else if reason ==ₛ "failed"
    then finish_run now run (RunState.running ∷ RunState.awaiting_approval ∷ []) RunState.failed
        "run_failed"
    else if reason ==ₛ "completed"
    then (do next ← read (next_pending run); succeed_or_start now run next)
    else pure RunState.running

unfoldable pub settle_turn_and_advance : ℕ → String → String → Tx RunState
settle_turn_and_advance now id reason = do
  to ← found (turn_state_for_reason reason) (invalid_reason reason)
  t ← settle_and_log now id reason to 0
  finish_step now reason t.run_id t.step_id
  advance_run_after_settle_tx now t.run_id reason

unfoldable pub append_event : ℕ → String → String → String → String → Payload → Tx Event
append_event now run turn step kind payload = append_event_tx now run turn step kind payload
