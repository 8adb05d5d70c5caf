-- ===== src/Runtime/Preserved.antt =====
-- Every call of control-plane/internal/runtime/store.go that writes keeps what its statements keep.
use iterabase_mono.Common.{
  ℕ, suc, String, ◌≡◌, refl, sym, ap, ◌∙◌, subst, Bool, true, false, Option, none, some, inl, inr,
  List, [], ◌∷◌, arith, Option-cases, ◌==ₛ◌, if◌then◌else◌,
}
use iterabase_mono.Common.Dict.{lookup}
use iterabase_mono.Common.Result.{Result-cases, ok}
use iterabase_mono.Work.Attempt.{RunState}
use iterabase_mono.Runtime.Rows.{
  StepState, TurnState, Step, Payload, Database, run_state_is, step_state_is, turn_state_is,
  settlement, turn_model, invalid_reason, str_ptr, StepInput, CreateRunInput, turn_state_for_reason,
  is_terminal_run, is_step_terminal, is_active_turn, is_any_run, is_any_step, is_run_event,
}
use iterabase_mono.Runtime.Statements.{Tx, ◌>>=◌, found, get, insert_turn}
use iterabase_mono.Runtime.Transitions.{
  new_run, new_step, moved_run, moved_step, empty_payload, insert_steps, create_run,
  run_transition_err, transition_run, start_run, succeed_run, fail_run, abort_run, await_approval,
  resume_from_approval, step_transition_err, transition_step, start_step, succeed_step, fail_step,
  skip_step,
}
use iterabase_mono.Runtime.Settlement.{
  new_turn, start_turn, turn_transition_err, settle_and_log, settle_turn, finish_step, finished_run,
  finish_run, succeed_or_start, start_next, advance_run_after_settle_tx, settle_turn_and_advance,
  append_event,
}
use iterabase_mono.Runtime.Queries.{next_pending}
use iterabase_mono.Runtime.Calls.{
  Op, creating, starting_run, succeeding_run, failing_run, aborting_run, awaiting_run, resuming_run,
  starting_step, succeeding_step, failing_step, skipping_step, starting_turn, settling, advancing,
  appending, done, perform, committed, after,
}
use iterabase_mono.Runtime.Effects.{both_in}
use iterabase_mono.Runtime.Law.{
  IsInSession, get_inv, IsKept, IsOpen, IsOpenStep, Law, Neutral, neutral_of, bind_inv, ok≢err,
  bind-IsKept, pure-IsKept, fail-IsKept, get-IsKept, read-IsKept, row_or-IsKept, if-IsKept,
}

pub running-IsOpenStep : IsOpenStep (StepState.running ∷ [])
unfolding is_any_step is_step_terminal
running-IsOpenStep StepState.pending h = refl
running-IsOpenStep StepState.running h = refl
running-IsOpenStep StepState.succeeded h = cc
running-IsOpenStep StepState.failed h = cc
running-IsOpenStep StepState.skipped h = cc

pub pending-IsOpenStep : IsOpenStep (StepState.pending ∷ [])
unfolding is_any_step is_step_terminal
pending-IsOpenStep StepState.pending h = refl
pending-IsOpenStep StepState.running h = refl
pending-IsOpenStep StepState.succeeded h = cc
pending-IsOpenStep StepState.failed h = cc
pending-IsOpenStep StepState.skipped h = cc

run_pending-IsOpen : IsOpen (RunState.pending ∷ [])
unfolding is_any_run is_terminal_run
run_pending-IsOpen RunState.pending h = refl
run_pending-IsOpen RunState.running h = refl
run_pending-IsOpen RunState.awaiting_approval h = refl
run_pending-IsOpen RunState.succeeded h = cc
run_pending-IsOpen RunState.failed h = cc
run_pending-IsOpen RunState.aborted h = cc

run_running-IsOpen : IsOpen (RunState.running ∷ [])
unfolding is_any_run is_terminal_run
run_running-IsOpen RunState.pending h = refl
run_running-IsOpen RunState.running h = refl
run_running-IsOpen RunState.awaiting_approval h = refl
run_running-IsOpen RunState.succeeded h = cc
run_running-IsOpen RunState.failed h = cc
run_running-IsOpen RunState.aborted h = cc

run_awaiting-IsOpen : IsOpen (RunState.awaiting_approval ∷ [])
unfolding is_any_run is_terminal_run
run_awaiting-IsOpen RunState.pending h = refl
run_awaiting-IsOpen RunState.running h = refl
run_awaiting-IsOpen RunState.awaiting_approval h = refl
run_awaiting-IsOpen RunState.succeeded h = cc
run_awaiting-IsOpen RunState.failed h = cc
run_awaiting-IsOpen RunState.aborted h = cc

run_active-IsOpen : IsOpen (RunState.running ∷ RunState.awaiting_approval ∷ [])
unfolding is_any_run is_terminal_run
run_active-IsOpen RunState.pending h = refl
run_active-IsOpen RunState.running h = refl
run_active-IsOpen RunState.awaiting_approval h = refl
run_active-IsOpen RunState.succeeded h = cc
run_active-IsOpen RunState.failed h = cc
run_active-IsOpen RunState.aborted h = cc

pub reason-inactive :
    (reason : String) (to : TurnState)
    → turn_state_for_reason reason ≡ some to
    → is_active_turn to ≡ false
unfolding turn_state_for_reason is_active_turn
reason-inactive reason to e = ground (arith, e)

-- Where a settlement goes on, its reason is one that the store accepts.
pub reason_inv :
    {A : Type 0} (reason : String) (f : TurnState → Tx A) (db db' : Database) (a : A)
    → (found (turn_state_for_reason reason) (invalid_reason reason) >>= f) db ≡ ok (a, db')
    → (to : TurnState) × (is_active_turn to ≡ false) × (f to db ≡ ok (a, db'))
reason_inv reason f db db' a h =
    let (to, mid, first, rest) =
      bind_inv (found (turn_state_for_reason reason) (invalid_reason reason)) f db h in
    elim (Option-cases (turn_state_for_reason reason)) [
      | inl e ↦ absurd (ok≢err (to, mid) (invalid_reason reason) (rw e at first))
      | inr (to', e) ↦
          let (same, q) = both_in to' to db mid (rw e at first) in
          (
            to,
            subst (λ x. is_active_turn x ≡ false) (sym same) (reason-inactive reason to' e),
            subst (λ d. f to d ≡ ok (a, db')) q rest,
          )
    ]

outcome-neutral : (b : Bool) → is_run_event (if b then "step_succeeded" else "step_failed") ≡ false
unfolding is_run_event
outcome-neutral true = refl
outcome-neutral false = refl

-- The calls that leave the runs alone.
module _ (R : Database → Database → Type 0) (law : Neutral R) where
  pub insert_steps-IsKept :
      (ids : ℕ → String) (n : ℕ) (run : String) (inputs : List StepInput)
      → IsKept R (insert_steps ids n run inputs)
  unfolding insert_steps
  insert_steps-IsKept ids n run [] = pure-IsKept R law tt
  insert_steps-IsKept ids n run (input ∷ rest) =
      bind-IsKept R law _ _ (law.step_added (ids n) (new_step run input))
        (λ _. insert_steps-IsKept ids (suc n) run rest)

  pub transition_step-IsKept :
      (now : ℕ) (id : String) (from : List StepState) (to : StepState) (kind : String) (p : Payload)
      → is_run_event kind ≡ false
      → IsOpenStep from
      → IsKept R (transition_step now id from to kind p)
  unfolding transition_step step_transition_err
  transition_step-IsKept now id from to kind p neutral open_states =
      bind-IsKept R law _ _ (law.step_moved id from (moved_step now to) open_states) (λ updated.
        bind-IsKept R law _ _
          (row_or-IsKept R law updated _ (
            bind-IsKept R law _ _ (get-IsKept R law Database.steps id)
              (λ s. fail-IsKept R law (step_state_is s.state))))
          (λ s.
            bind-IsKept R law _ _ (law.logged now s.run_id "" id kind p neutral)
              (λ _. pure-IsKept R law s)))

  pub start_turn-IsKept :
      (now : ℕ) (id run step name : String) → IsKept R (start_turn now id run step name)
  unfolding start_turn
  start_turn-IsKept now id run step name db db' a h =
      let (r, mid, first, last) = bind_inv (get Database.runs run) _ db h in
      let (found_run, same) = get_inv Database.runs run db mid r first in
      let t = new_turn run step r.session_id name in
      let (u, added, second, tail) = bind_inv (insert_turn id t) _ mid last in
      let known : IsInSession t mid =
        (r, ap (λ (d : Database). lookup run d.runs) same ∙ found_run, refl) in
      let logged : R added db' =
        bind-IsKept R law _ _
          (law.logged now run id step "turn_started" (turn_model name)
            (unfold is_run_event in refl))
          (λ _. pure-IsKept R law t) added db' a tail in
      subst (λ d. R d db') same
        (law.trans mid added db' (law.turn_added id t mid added u known second) logged)

  pub settle_and_log-IsKept :
      (now : ℕ) (id reason : String) (to : TurnState) (count : ℕ)
      → is_active_turn to ≡ false
      → IsKept R (settle_and_log now id reason to count)
  unfolding settle_and_log turn_transition_err
  settle_and_log-IsKept now id reason to count ended =
      bind-IsKept R law _ _ (law.turn_settled now id to ended) (λ updated.
        bind-IsKept R law _ _
          (row_or-IsKept R law updated _ (
            bind-IsKept R law _ _ (get-IsKept R law Database.turns id)
              (λ t. fail-IsKept R law (turn_state_is t.state))))
          (λ t.
            bind-IsKept R law _ _
              (law.logged now t.run_id id (str_ptr t.step_id) "settled" (settlement reason count)
                (unfold is_run_event in refl))
              (λ _. pure-IsKept R law t)))

  pub finish_step-IsKept :
      (now : ℕ) (reason run : String) (step : Option String)
      → IsKept R (finish_step now reason run step)
  unfolding finish_step
  finish_step-IsKept now reason run none = pure-IsKept R law tt
  finish_step-IsKept now reason run (some step) = if-IsKept R law _ _ _ (pure-IsKept R law tt) (
      bind-IsKept R law _ _ (law.step_moved step (StepState.running ∷ []) _ running-IsOpenStep)
        (λ _.
          bind-IsKept R law _ _
            (law.logged now run "" step _ empty_payload (outcome-neutral (reason ==ₛ "completed")))
            (λ _. pure-IsKept R law tt)))

  pub start_next-IsKept : (now : ℕ) (run step : String) → IsKept R (start_next now run step)
  unfolding start_next
  start_next-IsKept now run step =
      bind-IsKept R law _ _ (law.step_moved step (StepState.pending ∷ []) _ pending-IsOpenStep)
        (λ _.
          bind-IsKept R law _ _
            (law.logged now run "" step "step_started" empty_payload (unfold is_run_event in refl))
            (λ _. pure-IsKept R law RunState.running))

  -- A reason that the store accepts settles a turn in a state that is not active.
  pub reason-IsKept :
      {A : Type 0} (reason : String) (f : TurnState → Tx A)
      → ((to : TurnState) → is_active_turn to ≡ false → IsKept R (f to))
      → IsKept R (found (turn_state_for_reason reason) (invalid_reason reason) >>= f)
  reason-IsKept reason f kf db db' b h =
      let (to, ended, h') = reason_inv reason f db db' b h in kf to ended db db' b h'

  pub settle_turn-IsKept :
      (now : ℕ) (id reason : String) (count : ℕ) → IsKept R (settle_turn now id reason count)
  unfolding settle_turn
  settle_turn-IsKept now id reason count =
      reason-IsKept reason _ (λ to ended. settle_and_log-IsKept now id reason to count ended)

  pub done-IsKept : {A : Type 0} (m : Tx A) → IsKept R m → IsKept R (done m)
  done-IsKept m k = bind-IsKept R law _ _ k (λ _. pure-IsKept R law tt)

module _ (R : Database → Database → Type 0) (law : Law R) where
  abbrev rest : Neutral R
  rest = neutral_of law

  create_run-IsKept :
      (now : ℕ) (id : String) (ids : ℕ → String) (input : CreateRunInput)
      → IsKept R (create_run now id ids input)
  unfolding create_run
  create_run-IsKept now id ids input =
      bind-IsKept R rest _ _ (law.run_added id (new_run now input)) (λ _.
        bind-IsKept R rest _ _ (insert_steps-IsKept R rest ids 0 id input.steps)
          (λ _. pure-IsKept R rest (new_run now input)))

  transition_run-IsKept :
      (now : ℕ) (id : String) (from : List RunState) (to : RunState) (kind : String) (p : Payload)
      → IsOpen from
      → IsKept R (transition_run now id from to kind p)
  unfolding transition_run run_transition_err
  transition_run-IsKept now id from to kind p open_states =
      bind-IsKept R rest _ _ (law.run_moved id from (moved_run now to) open_states (λ r. refl))
        (λ updated.
          bind-IsKept R rest _ _
            (row_or-IsKept R rest updated _ (
              bind-IsKept R rest _ _ (get-IsKept R rest Database.runs id)
                (λ r. fail-IsKept R rest (run_state_is r.state))))
            (λ r.
              bind-IsKept R rest _ _ (law.logged now id "" "" kind p) (λ _. pure-IsKept R rest r)))

  pub finish_run-IsKept :
      (now : ℕ) (run : String) (from : List RunState) (to : RunState) (kind : String)
      → IsOpen from
      → IsKept R (finish_run now run from to kind)
  unfolding finish_run
  finish_run-IsKept now run from to kind open_states =
      bind-IsKept R rest _ _ (law.run_moved run from (finished_run now to) open_states (λ r. refl))
        (λ _.
          bind-IsKept R rest _ _ (law.logged now run "" "" kind empty_payload)
            (λ _. pure-IsKept R rest to))

  next-IsKept :
      (now : ℕ) (run : String) (next : Option (String × Step))
      → IsKept R (succeed_or_start now run next)
  unfolding succeed_or_start
  next-IsKept now run none =
      finish_run-IsKept now run (RunState.running ∷ []) RunState.succeeded "run_succeeded"
        run_running-IsOpen
  next-IsKept now run (some e) = start_next-IsKept R rest now run e.0

  pub advance-IsKept :
      (now : ℕ) (run reason : String) → IsKept R (advance_run_after_settle_tx now run reason)
  unfolding advance_run_after_settle_tx
  advance-IsKept now run reason =
      if-IsKept R rest (reason ==ₛ "aborted") _ _
        (finish_run-IsKept now run _ RunState.aborted "run_aborted" run_active-IsOpen)
        (if-IsKept R rest (reason ==ₛ "failed") _ _
          (finish_run-IsKept now run _ RunState.failed "run_failed" run_active-IsOpen)
          (if-IsKept R rest (reason ==ₛ "completed") _ _
            (bind-IsKept R rest _ _ (read-IsKept R rest (next_pending run)) (next-IsKept now run))
            (pure-IsKept R rest RunState.running)))

  settle_turn_and_advance-IsKept :
      (now : ℕ) (id reason : String) → IsKept R (settle_turn_and_advance now id reason)
  unfolding settle_turn_and_advance
  settle_turn_and_advance-IsKept now id reason = reason-IsKept R rest reason _ (λ to ended.
      bind-IsKept R rest _ _ (settle_and_log-IsKept R rest now id reason to 0 ended) (λ t.
        bind-IsKept R rest _ _ (finish_step-IsKept R rest now reason t.run_id t.step_id)
          (λ _. advance-IsKept now t.run_id reason)))

  pub perform-IsKept : (now : ℕ) (op : Op) → IsKept R (perform now op)
  unfolding is_run_event perform append_event start_run succeed_run fail_run abort_run
      await_approval resume_from_approval start_step succeed_step fail_step skip_step
  perform-IsKept now (creating id ids input) =
      done-IsKept R rest _ (create_run-IsKept now id ids input)
  perform-IsKept now (starting_run id) =
      done-IsKept R rest _ (transition_run-IsKept now id _ _ _ _ run_pending-IsOpen)
  perform-IsKept now (succeeding_run id) =
      done-IsKept R rest _ (transition_run-IsKept now id _ _ _ _ run_running-IsOpen)
  perform-IsKept now (failing_run id) =
      done-IsKept R rest _ (transition_run-IsKept now id _ _ _ _ run_active-IsOpen)
  perform-IsKept now (aborting_run id) =
      done-IsKept R rest _ (transition_run-IsKept now id _ _ _ _ run_active-IsOpen)
  perform-IsKept now (awaiting_run id) =
      done-IsKept R rest _ (transition_run-IsKept now id _ _ _ _ run_running-IsOpen)
  perform-IsKept now (resuming_run id) =
      done-IsKept R rest _ (transition_run-IsKept now id _ _ _ _ run_awaiting-IsOpen)
  perform-IsKept now (starting_step id) =
      done-IsKept R rest _ (transition_step-IsKept R rest now id _ _ _ _ refl pending-IsOpenStep)
  perform-IsKept now (succeeding_step id) =
      done-IsKept R rest _ (transition_step-IsKept R rest now id _ _ _ _ refl running-IsOpenStep)
  perform-IsKept now (failing_step id) =
      done-IsKept R rest _ (transition_step-IsKept R rest now id _ _ _ _ refl running-IsOpenStep)
  perform-IsKept now (skipping_step id) =
      done-IsKept R rest _ (transition_step-IsKept R rest now id _ _ _ _ refl pending-IsOpenStep)
  perform-IsKept now (starting_turn id run step name) =
      done-IsKept R rest _ (start_turn-IsKept R rest now id run step name)
  perform-IsKept now (settling id reason count) =
      done-IsKept R rest _ (settle_turn-IsKept R rest now id reason count)
  perform-IsKept now (advancing id reason) =
      done-IsKept R rest _ (settle_turn_and_advance-IsKept now id reason)
  perform-IsKept now (appending run turn step kind p) =
      done-IsKept R rest _ (law.logged now run turn step kind p)

  committed-IsKept : (now : ℕ) (op : Op) (db : Database) → R db (committed db (perform now op db))
  committed-IsKept now op db = elim (Result-cases (perform now op db)) [
    | inl (e, p) ↦ rw p (law.same db)
    | inr ((u, db'), p) ↦ rw p (perform-IsKept now op db db' u p)
  ]

  -- Over any sequence of calls, failed ones included.
  pub after-IsKept : (ops : List (ℕ × Op)) (db : Database) → R db (after ops db)
  unfolding after
  after-IsKept [] db = law.same db
  after-IsKept ((now, op) ∷ ops) db =
      law.trans _ _ _ (committed-IsKept now op db)
        (after-IsKept ops (committed db (perform now op db)))
