-- ===== src/Runtime/History.antt =====
-- Any sequence of calls of control-plane/internal/runtime/store.go against the replay of its event log.
use iterabase_mono.Common.{
  ℕ, String, ◌≡◌, refl, sym, ap, subst, inl, inr, false, some, List, [], ◌∷◌,
}
use iterabase_mono.Common.Dict.{lookup}
use iterabase_mono.Common.Result.{Result-cases, ok}
use iterabase_mono.Work.Attempt.{RunState}
use iterabase_mono.Runtime.Rows.{Turn, Database, is_run_event}
use iterabase_mono.Runtime.Statements.{Tx, found}
use iterabase_mono.Runtime.Transitions.{
  start_run, succeed_run, fail_run, abort_run, await_approval, resume_from_approval, start_step,
  succeed_step, fail_step, skip_step,
}
use iterabase_mono.Runtime.Settlement.{
  settle_and_log, finish_step, settle_turn_and_advance, append_event,
}
use iterabase_mono.Runtime.Effects.{both_in}
use iterabase_mono.Runtime.Law.{IsKept, bind_inv}
use iterabase_mono.Runtime.Calls.{
  Op, creating, starting_run, succeeding_run, failing_run, aborting_run, awaiting_run, resuming_run,
  starting_step, succeeding_step, failing_step, skipping_step, starting_turn, settling, advancing,
  appending, done, perform, committed, after,
}
use iterabase_mono.Runtime.Preserved.{
  pending-IsOpenStep, running-IsOpenStep, transition_step-IsKept, start_turn-IsKept,
  settle_turn-IsKept, settle_and_log-IsKept, finish_step-IsKept, reason_inv,
}
use iterabase_mono.Runtime.FirstWriter.{settle_and_log_inv}
use iterabase_mono.Runtime.Replay.{apply_event, IsReplayed, IsQuiet, neutral-IsQuiet}
use iterabase_mono.Runtime.Replayed.{
  KeepsReplay, HasState, Advanced, create_run-KeepsReplay, transition_run-KeepsReplay,
  advance-IsReplayed, HasState-runs,
}

-- The run of the turn that is to be settled is running.
abbrev pub IsSettling : String → Database → Type 0
IsSettling id db = (t : Turn) → lookup id db.turns ≡ some t → HasState t.run_id RunState.running db

settled-IsReplayed :
    (now : ℕ) (id reason : String) (db db' : Database) (s : RunState)
    → IsSettling id db
    → settle_turn_and_advance now id reason db ≡ ok (s, db')
    → (t : Turn) × (lookup id db.turns ≡ some t) × Advanced t.run_id s db db'
unfolding settle_turn_and_advance
settled-IsReplayed now id reason db db' s live h =
    let (to, ended, h1) = reason_inv reason _ db db' s h in
    let (t, mid, first, rest) = bind_inv (settle_and_log now id reason to 0) _ db h1 in
    let (u, mid', second, last) = bind_inv (finish_step now reason t.run_id t.step_id) _ mid rest in
    let (old, found_old, was, row, e) = settle_and_log_inv now id reason to 0 db mid t first in
    let quiet =
      neutral-IsQuiet.trans db mid mid'
        (settle_and_log-IsKept IsQuiet neutral-IsQuiet now id reason to 0 ended db mid t first)
        (finish_step-IsKept IsQuiet neutral-IsQuiet now reason t.run_id t.step_id mid mid' u
          second) in
    let same_run : t.run_id ≡ old.run_id = ap (λ (x : Turn). x.run_id) row in
    let live' : HasState t.run_id RunState.running mid' =
      HasState-runs t.run_id RunState.running db mid' quiet.runs
        (subst (λ k. HasState k RunState.running db) (sym same_run) (live old found_old)) in
    let (state, kept) = advance-IsReplayed now t.run_id reason mid' db' s live' last in
    (
      old,
      found_old,
      (subst (λ k. HasState k s db') same_run state, λ held. kept (quiet.replayed held)),
    )

-- The state that a settlement of a running run's turn returns is the one that the run's row then has.
pub settle_turn_and_advance-returned :
    (now : ℕ) (id reason : String) (db db' : Database) (s : RunState)
    → IsSettling id db
    → settle_turn_and_advance now id reason db ≡ ok (s, db')
    → (t : Turn) × (lookup id db.turns ≡ some t) × HasState t.run_id s db'
settle_turn_and_advance-returned now id reason db db' s live h =
    let (t, found, (state, kept)) = settled-IsReplayed now id reason db db' s live h in
    (t, found, state)

-- A settlement meets a running run, and a caller appends no run-level event.
abbrev pub IsInStep : Op → Database → Type 0
IsInStep (advancing id reason) db = IsSettling id db
IsInStep (appending run turn step kind p) db = is_run_event kind ≡ false
IsInStep _ db = Unit

abbrev pub AreInStep : List (ℕ × Op) → Database → Type 0
AreInStep [] db = Unit
AreInStep ((now, op) ∷ ops) db = IsInStep op db × AreInStep ops (committed db (perform now op db))

done-KeepsReplay : {A : Type 0} (m : Tx A) → KeepsReplay m → KeepsReplay (done m)
done-KeepsReplay m k db db' u h held =
    let (a, mid, first, last) = bind_inv m _ db h in
    subst IsReplayed (sym (both_in tt u mid db' last).1) (k db mid a first held)

done-quiet : {A : Type 0} (m : Tx A) → IsKept IsQuiet m → KeepsReplay (done m)
done-quiet m k = done-KeepsReplay m (λ db db' a h. (k db db' a h).replayed)

perform-IsReplayed :
    (now : ℕ) (op : Op) (db db' : Database) (u : Unit)
    → IsInStep op db
    → perform now op db ≡ ok (u, db')
    → IsReplayed db
    → IsReplayed db'
unfolding perform append_event start_run succeed_run fail_run abort_run await_approval
    resume_from_approval start_step succeed_step fail_step skip_step is_run_event apply_event
perform-IsReplayed now (creating id ids input) db db' u s h =
    done-KeepsReplay _ (create_run-KeepsReplay now id ids input) db db' u h
perform-IsReplayed now (starting_run id) db db' u s h =
    done-KeepsReplay _
      (transition_run-KeepsReplay now id _ RunState.running "run_started" (λ old. refl)) db db' u h
perform-IsReplayed now (succeeding_run id) db db' u s h =
    done-KeepsReplay _
      (transition_run-KeepsReplay now id _ RunState.succeeded "run_succeeded" (λ old. refl)) db db'
      u h
perform-IsReplayed now (failing_run id) db db' u s h =
    done-KeepsReplay _
      (transition_run-KeepsReplay now id _ RunState.failed "run_failed" (λ old. refl)) db db' u h
perform-IsReplayed now (aborting_run id) db db' u s h =
    done-KeepsReplay _
      (transition_run-KeepsReplay now id _ RunState.aborted "run_aborted" (λ old. refl)) db db' u h
perform-IsReplayed now (awaiting_run id) db db' u s h =
    done-KeepsReplay _
      (transition_run-KeepsReplay now id _ RunState.awaiting_approval "run_awaiting_approval"
        (λ old. refl))
      db db' u h
perform-IsReplayed now (resuming_run id) db db' u s h =
    done-KeepsReplay _
      (transition_run-KeepsReplay now id _ RunState.running "run_resumed" (λ old. refl)) db db' u h
perform-IsReplayed now (starting_step id) db db' u s h =
    done-quiet _
      (transition_step-IsKept IsQuiet neutral-IsQuiet now id _ _ _ _ refl pending-IsOpenStep) db db'
      u h
perform-IsReplayed now (succeeding_step id) db db' u s h =
    done-quiet _
      (transition_step-IsKept IsQuiet neutral-IsQuiet now id _ _ _ _ refl running-IsOpenStep) db db'
      u h
perform-IsReplayed now (failing_step id) db db' u s h =
    done-quiet _
      (transition_step-IsKept IsQuiet neutral-IsQuiet now id _ _ _ _ refl running-IsOpenStep) db db'
      u h
perform-IsReplayed now (skipping_step id) db db' u s h =
    done-quiet _
      (transition_step-IsKept IsQuiet neutral-IsQuiet now id _ _ _ _ refl pending-IsOpenStep) db db'
      u h
perform-IsReplayed now (starting_turn id run step name) db db' u s h =
    done-quiet _ (start_turn-IsKept IsQuiet neutral-IsQuiet now id run step name) db db' u h
perform-IsReplayed now (settling id reason count) db db' u s h =
    done-quiet _ (settle_turn-IsKept IsQuiet neutral-IsQuiet now id reason count) db db' u h
perform-IsReplayed now (advancing id reason) db db' u live h =
    let (s, mid, first, last) = bind_inv (settle_turn_and_advance now id reason) _ db h in
    let (t, found_turn, (state, kept)) = settled-IsReplayed now id reason db mid s live first in
    λ held. subst IsReplayed (sym (both_in tt u mid db' last).1) (kept held)
perform-IsReplayed now (appending run turn step kind p) db db' u neutral h =
    done-quiet _ (neutral-IsQuiet.logged now run turn step kind p neutral) db db' u h

-- Where every settlement meets a running run and no caller appends a run-level event itself, the state
-- column of every run stays the replay of its events, whatever calls are made and whichever of them fail.
pub after-IsReplayed :
    (ops : List (ℕ × Op)) (db : Database)
    → AreInStep ops db
    → IsReplayed db
    → IsReplayed (after ops db)
unfolding after
after-IsReplayed [] db s held = held
after-IsReplayed ((now, op) ∷ ops) db (first, rest) held =
    after-IsReplayed ops (committed db (perform now op db)) rest
      (elim (Result-cases (perform now op db)) [
        | inl (e, p) ↦ rw p held
        | inr ((u, db'), p) ↦ rw p (perform-IsReplayed now op db db' u first p held)
      ])
