-- ===== src/Runtime/Replayed.antt =====
-- Which calls of control-plane/internal/runtime/store.go keep the state column and the event log in step.
use mathlib.Core.Option.{none-ne-some, some-injective}
use iterabase_mono.Common.{
  ℕ, String, ◌≡◌, refl, sym, ap, ◌∙◌, subst, inl, inr, true, Option, none, some, List, [], ◌∷◌,
  arith, eq_iff, Bool-cases, ◌==ₛ◌,
}
use iterabase_mono.Common.Dict.{lookup, insert, lookup-insert}
use iterabase_mono.Common.Result.{ok}
use iterabase_mono.Work.Attempt.{RunState}
use iterabase_mono.Runtime.Rows.{
  StepState, Run, Step, Database, CreateRunInput, run_state_is, is_any_run,
}
use iterabase_mono.Runtime.Statements.{read, update_step, Tx, insert_run, update_run}
use iterabase_mono.Runtime.Transitions.{
  new_run, moved_run, create_run, insert_steps, row_or, run_transition_err, transition_run,
  empty_payload,
}
use iterabase_mono.Runtime.Queries.{next_pending}
use iterabase_mono.Runtime.Settlement.{
  finished_run, finish_run, start_next, succeed_or_start, advance_run_after_settle_tx,
}
use iterabase_mono.Runtime.Effects.{both_in, insert_run_inv, update_run_inv, row_or_inv}
use iterabase_mono.Runtime.Law.{IsKept, bind_inv, logged_inv, with_event, get-fail-IsRefused}
use iterabase_mono.Runtime.Preserved.{insert_steps-IsKept, start_next-IsKept}
use iterabase_mono.Runtime.EventLog.{of_run}
use iterabase_mono.Runtime.Replay.{
  apply_event, replay, IsReplayed, IsWritten, logged-IsReplayed, IsQuiet, neutral-IsQuiet,
}

abbrev pub KeepsReplay : {A : Type 0} → Tx A → Type 0
KeepsReplay m = IsKept (λ db db'. IsReplayed db → IsReplayed db') m

insert_run-KeepsReplay :
    (now : ℕ) (id : String) (input : CreateRunInput)
    → KeepsReplay (insert_run id (new_run now input))
unfolding replay
insert_run-KeepsReplay now id input db db' u h held =
    let (new, e) = insert_run_inv id (new_run now input) db db' u h in
    subst IsReplayed (sym e) (record {
      states = λ other r found. elim (Bool-cases (id ==ₛ other)) [
        | inl same ↦
            let none_yet : of_run other db.events ≡ [] =
              held.owned other
                (subst (λ k. lookup k db.runs ≡ none) ((eq_iff id other).0 same) new) in
            let here : r ≡ new_run now input =
              some-injective r (new_run now input)
                (sym found ∙ lookup-insert id other (new_run now input) db.runs ∙ rw same refl) in
            ap (λ (x : Run). x.state) here ∙ ap (replay RunState.pending) (sym none_yet)
        | inr differs ↦
            held.states other r
              (sym (lookup-insert id other (new_run now input) db.runs ∙ rw differs refl) ∙ found)
      ];
      owned = λ other gone. elim (Bool-cases (id ==ₛ other)) [
        | inl same ↦
            held.owned other (subst (λ k. lookup k db.runs ≡ none) ((eq_iff id other).0 same) new)
        | inr differs ↦
            held.owned other
              (sym (lookup-insert id other (new_run now input) db.runs ∙ rw differs refl) ∙ gone)
      ];
    })

pub create_run-KeepsReplay :
    (now : ℕ) (id : String) (ids : ℕ → String) (input : CreateRunInput)
    → KeepsReplay (create_run now id ids input)
unfolding create_run
create_run-KeepsReplay now id ids input db db' r h held =
    let (u, mid, first, rest) = bind_inv (insert_run id (new_run now input)) _ db h in
    let (v, mid', second, last) = bind_inv (insert_steps ids 0 id input.steps) _ mid rest in
    let (w, e) = both_in (new_run now input) r mid' db' last in
    subst IsReplayed (sym e) (
      (insert_steps-IsKept IsQuiet neutral-IsQuiet ids 0 id input.steps mid mid' v second).replayed
        (insert_run-KeepsReplay now id input db mid u first held))

insert-IsWritten :
    (id : String) (new : Run) (rows : List (String × Run))
    → IsWritten id new rows (insert id new rows)
insert-IsWritten id new rows = record {
  written = lookup-insert id id new rows ∙ ground (arith, eq_iff id id);
  others = λ other differs. lookup-insert id other new rows ∙ rw differs refl;
}

pub transition_run-KeepsReplay :
    (now : ℕ) (id : String) (from : List RunState) (to : RunState) (kind : String)
    → ((s : RunState) → apply_event kind s ≡ to)
    → KeepsReplay (transition_run now id from to kind empty_payload)
unfolding transition_run run_transition_err
transition_run-KeepsReplay now id from to kind says db db' r h held =
    let (o, mid, first, rest) = bind_inv (update_run id from (moved_run now to)) _ db h in
    let (r', mid', second, last) = bind_inv (row_or o (run_transition_err id)) _ mid rest in
    let (row, e2) =
      row_or_inv o _ mid mid' r' (get-fail-IsRefused Database.runs id (λ x. run_state_is x.state))
        second in
    let (known, same, e3) = logged_inv now id "" "" kind empty_payload r' r mid' db' last in
    elim (update_run_inv id from (moved_run now to) db mid o first) [
      | inl (missed, e1) ↦ absurd (none-ne-some r' (sym missed ∙ row))
      | inr (old, found, allowed, row', e1) ↦
          subst IsReplayed (sym (e3 ∙ ap (with_event now id "" "" kind empty_payload) (e2 ∙ e1))) (
            logged-IsReplayed now id "" "" kind empty_payload db _ old (moved_run now to old) found
              (insert-IsWritten id (moved_run now to old) db.runs) (says old.state) held)
    ]

-- The update of a run whose guard matches.
update_run-matched :
    (id : String) (from : List RunState) (change : Run → Run) (db : Database) (r : Run)
    → lookup id db.runs ≡ some r
    → is_any_run from r.state ≡ true
    → update_run id from change db
      ≡ ok (some (change r), record db { runs = insert id (change r) db.runs })
unfolding update_run
update_run-matched id from change db r found allowed = rw (found, update_run) (rw allowed refl)

-- The state column of a run.
abbrev pub HasState : String → RunState → Database → Type 0
HasState run s db = (r : Run) × (lookup run db.runs ≡ some r) × (r.state ≡ s)

finish_run-IsReplayed :
    (now : ℕ) (run : String) (from : List RunState) (to : RunState) (kind : String)
    (db db' : Database) (s : RunState)
    → is_any_run from RunState.running ≡ true
    → ((old : RunState) → apply_event kind old ≡ to)
    → HasState run RunState.running db
    → finish_run now run from to kind db ≡ ok (s, db')
    → HasState run s db' × (IsReplayed db → IsReplayed db')
unfolding finish_run
finish_run-IsReplayed now run from to kind db db' s allowed says (r, found, live) h =
    let (o, mid, first, rest) = bind_inv (update_run run from (finished_run now to)) _ db h in
    let (known, same, e) = logged_inv now run "" "" kind empty_payload to s mid db' rest in
    let matched =
      update_run-matched run from (finished_run now to) db r found
        (ap (is_any_run from) live ∙ allowed) in
    let e1 = (both_in (some (finished_run now to r)) o _ mid (sym matched ∙ first)).1 in
    let made = e ∙ ap (with_event now run "" "" kind empty_payload) e1 in
    let written = insert-IsWritten run (finished_run now to r) db.runs in
    (
      (
        finished_run now to r,
        ap (λ (d : Database). lookup run d.runs) made ∙ written.written,
        sym same,
      ),
      λ held. subst IsReplayed (sym made) (
          logged-IsReplayed now run "" "" kind empty_payload db _ r (finished_run now to r) found
            written (says r.state) held),
    )

pub HasState-runs :
    (run : String) (s : RunState) (db db' : Database)
    → db'.runs ≡ db.runs
    → HasState run s db
    → HasState run s db'
HasState-runs run s db db' e (r, found, live) = (r, ap (lookup run) e ∙ found, live)

abbrev pub Advanced : String → RunState → Database → Database → Type 0
Advanced run s db db' = HasState run s db' × (IsReplayed db → IsReplayed db')

start_next-running :
    (now : ℕ) (run step : String) (db db' : Database) (s : RunState)
    → start_next now run step db ≡ ok (s, db')
    → s ≡ RunState.running
unfolding start_next
start_next-running now run step db db' s h =
    let (o, mid, first, rest) = bind_inv (update_step step (StepState.pending ∷ []) _) _ db h in
    (logged_inv now run "" step "step_started" empty_payload RunState.running s mid db' rest).1

succeed_or_start-IsReplayed :
    (now : ℕ) (run : String) (next : Option (String × Step)) (db db' : Database) (s : RunState)
    → HasState run RunState.running db
    → succeed_or_start now run next db ≡ ok (s, db')
    → Advanced run s db db'
unfolding succeed_or_start is_any_run apply_event
succeed_or_start-IsReplayed now run none db db' s live h =
    finish_run-IsReplayed now run (RunState.running ∷ []) RunState.succeeded "run_succeeded" db db'
      s refl (λ old. refl) live h
succeed_or_start-IsReplayed now run (some e) db db' s live h =
    let quiet = start_next-IsKept IsQuiet neutral-IsQuiet now run e.0 db db' s h in
    (
      subst (λ x. HasState run x db') (sym (start_next-running now run e.0 db db' s h))
          (HasState-runs run RunState.running db db' quiet.runs live),
      quiet.replayed,
    )

pub advance-IsReplayed :
    (now : ℕ) (run reason : String) (db db' : Database) (s : RunState)
    → HasState run RunState.running db
    → advance_run_after_settle_tx now run reason db ≡ ok (s, db')
    → Advanced run s db db'
unfolding advance_run_after_settle_tx is_any_run apply_event
advance-IsReplayed now run reason db db' s live h = elim (Bool-cases (reason ==ₛ "aborted")) [
  | inl aborted ↦
      finish_run-IsReplayed now run (RunState.running ∷ RunState.awaiting_approval ∷ [])
        RunState.aborted "run_aborted" db db' s refl (λ old. refl) live (rw aborted at h)
  | inr not_aborted ↦ elim (Bool-cases (reason ==ₛ "failed")) [
    | inl failed ↦
        finish_run-IsReplayed now run (RunState.running ∷ RunState.awaiting_approval ∷ [])
          RunState.failed "run_failed" db db' s refl (λ old. refl) live
          (rw (not_aborted, failed) at h)
    | inr not_failed ↦ elim (Bool-cases (reason ==ₛ "completed")) [
      | inl completed ↦
          let (next, mid, first, rest) =
            bind_inv (read (next_pending run)) _ db
              (rw (not_aborted, not_failed, completed) at h) in
          let e = (both_in (next_pending run db) next db mid first).1 in
          succeed_or_start-IsReplayed now run next db db' s live
            (subst (λ d. succeed_or_start now run next d ≡ ok (s, db')) e rest)
      | inr unknown ↦
          let (same, e) =
            both_in RunState.running s db db' (rw (not_aborted, not_failed, unknown) at h) in
          (
            subst (λ x. HasState run x db') (sym same)
                (HasState-runs run RunState.running db db' (ap (λ (d : Database). d.runs) e) live),
            λ held. subst IsReplayed (sym e) held,
          )
    ]
  ]
]
