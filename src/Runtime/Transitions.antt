-- ===== src/Runtime/Transitions.antt =====
-- CreateRun and the transitions of runs and steps of control-plane/internal/runtime/store.go. The ids
-- that the database draws, and the time of the transaction, are arguments.
use iterabase_mono.Common.{ℕ, suc, String, Bool, true, false, Option, none, some, List, [], ◌∷◌}
use iterabase_mono.Work.Attempt.{RunState}
use iterabase_mono.Runtime.Rows.{
  StepState, Run, Step, Payload, raw, Database, StepInput, CreateRunInput, run_state_is,
  step_state_is, is_terminal_run, is_step_terminal, nullable, json_b,
}
use iterabase_mono.Runtime.Statements.{
  Tx, ◌>>=◌, ◌>>◌, pure, fail, get, insert_run, update_run, insert_step, update_step,
  append_event_tx,
}

-- `to == RunRunning`, and `to == StepRunning`.
abbrev is_run_running : RunState → Bool
is_run_running RunState.running = true
is_run_running _ = false

abbrev is_step_running : StepState → Bool
is_step_running StepState.running = true
is_step_running _ = false

abbrev coalesce : Option ℕ → Option ℕ → Option ℕ
coalesce none later = later
coalesce (some t) later = some t

abbrev pub at_if : Bool → ℕ → Option ℕ
at_if true now = some now
at_if false now = none

abbrev pub new_run : ℕ → CreateRunInput → Run
new_run now input = record {
  kind = input.kind;
  definition_key = nullable input.definition_key;
  scope_identity_id = input.scope_identity_id;
  session_id = input.session_id;
  session_dir = input.session_dir;
  trigger = json_b input.trigger;
  state = RunState.pending;
  created_at = now;
  started_at = none;
  finished_at = none;
}

abbrev pub new_step : String → StepInput → Step
new_step run input = record {
  run_id = run;
  seq = input.seq;
  kind = input.kind;
  config = json_b input.config;
  state = StepState.pending;
  started_at = none;
  finished_at = none;
}

-- The loop over the steps, with the id of the n-th one.
unfoldable pub insert_steps : (ℕ → String) → ℕ → String → List StepInput → Tx (Unit {0})
insert_steps ids n run [] = pure tt
insert_steps ids n run (input ∷ rest) =
    insert_step (ids n) (new_step run input) >> insert_steps ids (suc n) run rest

unfoldable pub create_run : ℕ → String → (ℕ → String) → CreateRunInput → Tx Run
create_run now id ids input = do
  insert_run id (new_run now input)
  insert_steps ids 0 id input.steps
  pure (new_run now input)

-- runTransitionErr
unfoldable pub run_transition_err : {A : Type 0} → String → Tx A
run_transition_err id = do r ← get Database.runs id; fail (run_state_is r.state)

abbrev pub moved_run : ℕ → RunState → Run → Run
moved_run now to r = record r {
  state = to;
  started_at = coalesce r.started_at (at_if (is_run_running to) now);
  finished_at = at_if (is_terminal_run to) now;
}

abbrev pub row_or : {A : Type 0} → Option A → Tx A → Tx A
row_or none otherwise = otherwise
row_or (some a) otherwise = pure a

unfoldable pub transition_run : ℕ → String → List RunState → RunState → String → Payload → Tx Run
transition_run now id from to kind payload = do
  updated ← update_run id from (moved_run now to)
  r ← row_or updated (run_transition_err id)
  append_event_tx now id "" "" kind payload
  pure r

-- A nil payload.
abbrev pub empty_payload : Payload
empty_payload = raw ""

unfoldable pub start_run : ℕ → String → Tx Run
start_run now id =
    transition_run now id (RunState.pending ∷ []) RunState.running "run_started" empty_payload

unfoldable pub succeed_run : ℕ → String → Tx Run
succeed_run now id =
    transition_run now id (RunState.running ∷ []) RunState.succeeded "run_succeeded" empty_payload

unfoldable pub fail_run : ℕ → String → Tx Run
fail_run now id =
    transition_run now id (RunState.running ∷ RunState.awaiting_approval ∷ []) RunState.failed
      "run_failed" empty_payload

unfoldable pub abort_run : ℕ → String → Tx Run
abort_run now id =
    transition_run now id (RunState.running ∷ RunState.awaiting_approval ∷ []) RunState.aborted
      "run_aborted" empty_payload

unfoldable pub await_approval : ℕ → String → Tx Run
await_approval now id =
    transition_run now id (RunState.running ∷ []) RunState.awaiting_approval "run_awaiting_approval"
      empty_payload

unfoldable pub resume_from_approval : ℕ → String → Tx Run
resume_from_approval now id =
    transition_run now id (RunState.awaiting_approval ∷ []) RunState.running "run_resumed"
      empty_payload

unfoldable pub step_transition_err : {A : Type 0} → String → Tx A
step_transition_err id = do s ← get Database.steps id; fail (step_state_is s.state)

abbrev pub moved_step : ℕ → StepState → Step → Step
moved_step now to s = record s {
  state = to;
  started_at = coalesce s.started_at (at_if (is_step_running to) now);
  finished_at = at_if (is_step_terminal to) now;
}

unfoldable pub transition_step :
    ℕ → String → List StepState → StepState → String → Payload → Tx Step
transition_step now id from to kind payload = do
  updated ← update_step id from (moved_step now to)
  s ← row_or updated (step_transition_err id)
  append_event_tx now s.run_id "" id kind payload
  pure s

unfoldable pub start_step : ℕ → String → Tx Step
start_step now id =
    transition_step now id (StepState.pending ∷ []) StepState.running "step_started" empty_payload

unfoldable pub succeed_step : ℕ → String → Tx Step
succeed_step now id =
    transition_step now id (StepState.running ∷ []) StepState.succeeded "step_succeeded"
      empty_payload

unfoldable pub fail_step : ℕ → String → Tx Step
fail_step now id =
    transition_step now id (StepState.running ∷ []) StepState.failed "step_failed" empty_payload

unfoldable pub skip_step : ℕ → String → Tx Step
skip_step now id =
    transition_step now id (StepState.pending ∷ []) StepState.skipped "step_skipped" empty_payload
