-- ===== src/Runtime/Scenarios.antt =====
-- A chat run with one step, driven through its calls.
use iterabase_mono.Common.{
  ℕ, String, ◌≡◌, refl, subst, inl, arith, Option, none, some, List, [], ◌∷◌, ◌++◌,
}
use mathlib.Core.Option.{none-ne-some, some-injective}
use iterabase_mono.Common.Dict.{lookup, insert}
use iterabase_mono.Common.Result.{Result, ok, err}
use iterabase_mono.Work.Attempt.{RunState}
use iterabase_mono.Runtime.Rows.{
  StepState, TurnState, Run, Turn, raw, Database, CreateRunInput, StoreError, turn_state_is,
  turn_state_for_reason, is_any_run, is_any_step, is_active_turn, is_terminal_run, is_step_terminal,
}
use iterabase_mono.Runtime.Statements.{
  ◌>>=◌, insert_run, update_run, insert_step, update_step, insert_turn, settle_row, count_active,
  max_seq, append_event_tx,
}
use iterabase_mono.Runtime.Transitions.{
  insert_steps, create_run, transition_run, start_run, await_approval, transition_step, start_step,
}
use iterabase_mono.Runtime.Queries.{
  place, order_by, where_rows, next_pending, list_events, events_since, last_event_seq,
}
use iterabase_mono.Runtime.Settlement.{
  start_turn, settle_and_log, settle_turn, finish_step, finish_run, succeed_or_start,
  advance_run_after_settle_tx, settle_turn_and_advance,
}
use iterabase_mono.Runtime.Calls.{
  Op, creating, starting_run, aborting_run, awaiting_run, starting_step, starting_turn, advancing,
  appending, perform, after,
}
use iterabase_mono.Runtime.Terminal.{IsFinal, after-IsFinal}
use iterabase_mono.Runtime.FirstWriter.{settle_turn-first_writer}
use iterabase_mono.Runtime.EventLog.{of_run, IsGapless, after-IsGapless, events_since-resumes}
use iterabase_mono.Runtime.Sessions.{IsExclusive, after-IsExclusive}
use iterabase_mono.Runtime.Replay.{apply_event, replay, IsReplayed}
use iterabase_mono.Runtime.Replayed.{HasState}
use iterabase_mono.Runtime.History.{
  IsSettling, AreInStep, settle_turn_and_advance-returned, after-IsReplayed,
}

abbrev empty : Database
empty = record { runs = []; steps = []; turns = []; events = [] }

abbrev step_ids : ℕ → String
step_ids _ = "s1"

abbrev chat : CreateRunInput
chat = record {
  kind = "chat";
  definition_key = "";
  scope_identity_id = "i1";
  session_id = "c1";
  session_dir = "/sessions/c1";
  trigger = "";
  steps = record { seq = 1; kind = "agent_task"; config = "" } ∷ [];
}

abbrev opening : List (ℕ × Op)
opening =
    (1, creating "r1" step_ids chat)
    ∷ (2, starting_run "r1")
    ∷ (3, starting_step "s1")
    ∷ (4, starting_turn "t1" "r1" "s1" "small")
    ∷ []

-- The second turn finds the session busy.
abbrev talking : List (ℕ × Op)
talking =
    (5, starting_turn "t2" "r1" "s1" "small")
    ∷ (6, appending "r1" "t1" "s1" "assistant_message" (raw "1"))
    ∷ (7, advancing "t1" "completed")
    ∷ (8, aborting_run "r1")
    ∷ []

abbrev job : Database
job = record {
  runs =
      (
        "r1",
        record {
          kind = "chat";
          definition_key = none;
          scope_identity_id = "i1";
          session_id = "c1";
          session_dir = "/sessions/c1";
          trigger = "{}";
          state = RunState.running;
          created_at = 1;
          started_at = some 2;
          finished_at = none;
        },
      )
      ∷ [];
  steps =
      (
        "s1",
        record {
          run_id = "r1";
          seq = 1;
          kind = "agent_task";
          config = "{}";
          state = StepState.running;
          started_at = some 3;
          finished_at = none;
        },
      )
      ∷ [];
  turns =
      (
        "t1",
        record {
          run_id = "r1";
          step_id = some "s1";
          session_id = "c1";
          model = some "small";
          state = TurnState.running;
          started_at = none;
          settled_at = none;
        },
      )
      ∷ [];
  events = [];
}

abbrev database_of : Result StoreError (RunState × Database) → Database
database_of (ok (s, db)) = db
database_of (err e) = empty

abbrev settled_job : Database
settled_job = database_of (settle_turn_and_advance 7 "t1" "completed" job)

job-settles : settle_turn_and_advance 7 "t1" "completed" job ≡ ok (RunState.succeeded, settled_job)
unfolding ◌>>=◌ settle_turn_and_advance turn_state_for_reason settle_and_log settle_row lookup
    insert append_event_tx finish_step update_step is_any_step advance_run_after_settle_tx
    next_pending where_rows order_by place succeed_or_start finish_run update_run is_any_run
job-settles = refl

completed-valid : turn_state_for_reason "completed" ≡ some TurnState.succeeded
unfolding turn_state_for_reason
completed-valid = refl

aborted-valid : turn_state_for_reason "aborted" ≡ some TurnState.aborted
unfolding turn_state_for_reason
aborted-valid = refl

after-IsFinal_example : IsFinal settled_job (after talking settled_job)
after-IsFinal_example = after-IsFinal talking settled_job

settle_turn-first_writer_example :
    (settle_turn_and_advance 9 "t1" "aborted" (after talking settled_job)
      ≡ err (turn_state_is TurnState.succeeded))
    × (settle_turn 9 "t1" "aborted" 3 (after talking settled_job)
        ≡ err (turn_state_is TurnState.succeeded))
settle_turn-first_writer_example =
    settle_turn-first_writer 7 "t1" "completed" TurnState.succeeded job settled_job talking 9
      "aborted" TurnState.aborted 3 completed-valid (inl (RunState.succeeded, job-settles))
      aborted-valid

empty-IsGapless : IsGapless empty
unfolding of_run where_rows
empty-IsGapless = record { numbered = λ run. tt }

after-IsGapless_example : IsGapless (after talking (after opening empty))
after-IsGapless_example =
    after-IsGapless talking (after opening empty) (after-IsGapless opening empty empty-IsGapless)

abbrev begun : Database
begun = after opening empty

begun-IsGapless : IsGapless begun
begun-IsGapless = after-IsGapless opening empty empty-IsGapless

events_since-resumes_example :
    list_events "r1" (after talking begun)
    ≡ list_events "r1" begun ++ events_since "r1" (last_event_seq "r1" begun) (after talking begun)
events_since-resumes_example = events_since-resumes "r1" talking begun begun-IsGapless

job-IsExclusive : IsExclusive empty
unfolding count_active lookup
job-IsExclusive = record {
  one = λ session. omega arith;
  matched = λ id t found. absurd (none-ne-some t found);
}

after-IsExclusive_example : IsExclusive (after opening empty)
after-IsExclusive_example = after-IsExclusive opening empty job-IsExclusive

job-IsSettling : IsSettling "t1" job
unfolding lookup
job-IsSettling t e =
    let q = some-injective _ t e in
    subst (λ (x : Turn). HasState x.run_id RunState.running job) q (_, refl, refl)

settle_turn_and_advance-returned_example :
    (t : Turn) × (lookup "t1" job.turns ≡ some t) × HasState t.run_id RunState.succeeded settled_job
settle_turn_and_advance-returned_example =
    settle_turn_and_advance-returned 7 "t1" "completed" job settled_job RunState.succeeded
      job-IsSettling job-settles

empty-IsReplayed : IsReplayed empty
unfolding lookup of_run where_rows
empty-IsReplayed = record { states = λ id r e. absurd (none-ne-some r e); owned = λ id e. refl }

-- The whole run, to its settlement.
abbrev played : List (ℕ × Op)
played =
    (1, creating "r1" step_ids chat)
    ∷ (2, starting_run "r1")
    ∷ (3, starting_step "s1")
    ∷ (4, starting_turn "t1" "r1" "s1" "small")
    ∷ (7, advancing "t1" "completed")
    ∷ []

begun-IsSettling : IsSettling "t1" begun
unfolding after perform ◌>>=◌ insert_run insert_step insert_steps create_run transition_run
    start_run update_run is_any_run is_terminal_run transition_step start_step update_step
    is_any_step is_step_terminal start_turn insert_turn count_active is_active_turn append_event_tx
    max_seq settle_turn_and_advance turn_state_for_reason settle_and_log settle_row lookup insert
    finish_step advance_run_after_settle_tx next_pending where_rows order_by place succeed_or_start
    finish_run
begun-IsSettling t e =
    let q = some-injective _ t e in
    subst (λ (x : Turn). HasState x.run_id RunState.running begun) q (_, refl, refl)

played-AreInStep : AreInStep played empty
unfolding after
played-AreInStep = (tt, (tt, (tt, (tt, (begun-IsSettling, tt)))))

after-IsReplayed_example : IsReplayed (after played empty)
after-IsReplayed_example = after-IsReplayed played empty played-AreInStep empty-IsReplayed

-- A settlement that meets a run awaiting approval: its history says that it succeeded, its row does not.
abbrev paused : Database
paused = after (opening ++ (5, awaiting_run "r1") ∷ (6, advancing "t1" "completed") ∷ []) empty

abbrev state_in : Option Run → Option RunState
state_in none = none
state_in (some r) = some r.state

paused-diverges :
    (state_in (lookup "r1" paused.runs) ≡ some RunState.awaiting_approval)
    × (replay RunState.pending (of_run "r1" paused.events) ≡ RunState.succeeded)
unfolding after perform ◌>>=◌ insert_run insert_step insert_steps create_run transition_run
    start_run update_run is_any_run is_terminal_run transition_step start_step update_step
    is_any_step is_step_terminal start_turn insert_turn count_active is_active_turn append_event_tx
    max_seq settle_turn_and_advance turn_state_for_reason settle_and_log settle_row lookup insert
    finish_step advance_run_after_settle_tx next_pending where_rows order_by place succeed_or_start
    finish_run of_run await_approval replay apply_event
paused-diverges = (refl, refl)
