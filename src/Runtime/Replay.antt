-- ===== src/Runtime/Replay.antt =====
-- "Replay = fold ListEvents" of control-plane/internal/runtime/store.go: the state that a run's events give.
use mathlib.Core.Option.{none-ne-some, some-injective}
use mathlib.Core.Bool.{true≢false}
use iterabase_mono.Common.{
  ℕ, ◌+◌, String, ◌≡◌, refl, sym, ap, ◌∙◌, subst, inl, inr, true, false, none, some, List, [], ◌∷◌,
  ◌++◌, arith, eq_iff, Bool-cases, Option-cases, ◌==ₛ◌, if◌then◌else◌,
}
use iterabase_mono.Common.Dict.{lookup, has_key}
use iterabase_mono.Work.Attempt.{RunState}
use iterabase_mono.Runtime.Rows.{Run, Payload, Event, Database, is_run_event}
use iterabase_mono.Runtime.Statements.{new_event, max_seq}
use iterabase_mono.Runtime.Queries.{where_rows}
use iterabase_mono.Runtime.Effects.{
  insert_step_inv, update_step_inv, insert_turn_inv, settle_row_inv, append_event_inv,
}
use iterabase_mono.Runtime.Law.{Neutral, with_event}
use iterabase_mono.Runtime.EventLog.{of_run, where_rows-append, append_nil}

-- What an event says of the state of its run.
unfoldable pub apply_event : String → RunState → RunState
apply_event kind s =
    if "run_started" ==ₛ kind
    then RunState.running
    else if "run_succeeded" ==ₛ kind
    then RunState.succeeded
    else if "run_failed" ==ₛ kind
    then RunState.failed
    else if "run_aborted" ==ₛ kind
    then RunState.aborted
    else if "run_awaiting_approval" ==ₛ kind
    then RunState.awaiting_approval
    else if "run_resumed" ==ₛ kind
    then RunState.running
    else s

-- The fold over a run's events, in their order.
unfoldable pub replay : RunState → List Event → RunState
replay s [] = s
replay s (e ∷ es) = replay (apply_event e.kind s) es

-- The state column of every run is the replay of its events, and only runs have events.
pub record IsReplayed (db : Database) : Type 0 where
  pub states :
      (id : String) (r : Run)
      → lookup id db.runs ≡ some r
      → r.state ≡ replay RunState.pending (of_run id db.events)
  pub owned : (id : String) → lookup id db.runs ≡ none → of_run id db.events ≡ []

replay-append :
    (s : RunState) (es : List Event) (e : Event)
    → replay s (es ++ e ∷ []) ≡ apply_event e.kind (replay s es)
unfolding replay
replay-append s [] e = refl
replay-append s (x ∷ es) e = replay-append (apply_event x.kind s) es e

apply_event-neutral :
    (kind : String) (s : RunState) → is_run_event kind ≡ false → apply_event kind s ≡ s
unfolding is_run_event apply_event
apply_event-neutral kind s h = ground (arith, h)

of_run-own :
    (run : String) (es : List Event) (e : Event)
    → e.run_id ≡ run
    → of_run run (es ++ e ∷ []) ≡ of_run run es ++ e ∷ []
unfolding of_run where_rows
of_run-own run es e q =
    let own : e.run_id ==ₛ run ≡ true = (eq_iff e.run_id run).1 q in
    where_rows-append _ es (e ∷ []) ∙ ap (λ l. of_run run es ++ l) (rw own refl)

of_run-other :
    (run : String) (es : List Event) (e : Event)
    → e.run_id ==ₛ run ≡ false
    → of_run run (es ++ e ∷ []) ≡ of_run run es
unfolding of_run where_rows
of_run-other run es e q =
    where_rows-append _ es (e ∷ [])
    ∙ ap (λ l. of_run run es ++ l) (rw q refl)
    ∙ append_nil (of_run run es)

-- The runs after the row of one of them was written, or left alone.
pub record IsWritten (run : String) (new : Run) (rows rows' : List (String × Run)) : Type 0 where
  pub written : lookup run rows' ≡ some new
  pub others : (id : String) → run ==ₛ id ≡ false → lookup id rows' ≡ lookup id rows

-- An event that leaves the state of its run where its row now is.
pub logged-IsReplayed :
    (now : ℕ) (run turn step kind : String) (p : Payload) (db : Database)
    (rows : List (String × Run)) (old new : Run)
    → lookup run db.runs ≡ some old
    → IsWritten run new db.runs rows
    → apply_event kind old.state ≡ new.state
    → IsReplayed db
    → IsReplayed (with_event now run turn step kind p (record db { runs = rows }))
logged-IsReplayed now run turn step kind p db rows old new found w next h = record {
  states = λ id r e. elim (Bool-cases (run ==ₛ id)) [
    | inl same ↦
        let made = new_event now run turn step (max_seq run db.events + 1) kind p in
        let q = (eq_iff run id).0 same in
        let here : r ≡ new =
          some-injective r new (sym e ∙ ap (λ k. lookup k rows) (sym q) ∙ w.written) in
        ap (λ (x : Run). x.state) here
        ∙ sym next
        ∙ ap (apply_event kind) (h.states run old found)
        ∙ sym (replay-append RunState.pending (of_run run db.events) made)
        ∙ ap (replay RunState.pending) (sym (of_run-own run db.events made refl))
        ∙ ap (λ k. replay RunState.pending (of_run k (db.events ++ made ∷ []))) q
    | inr differs ↦
        h.states id r (sym (w.others id differs) ∙ e)
        ∙ ap (replay RunState.pending) (sym (of_run-other id db.events _ differs))
  ];
  owned = λ id e. elim (Bool-cases (run ==ₛ id)) [
    | inl same ↦ absurd (
        none-ne-some new
          (sym e ∙ ap (λ k. lookup k rows) (sym ((eq_iff run id).0 same)) ∙ w.written))
    | inr differs ↦ of_run-other id db.events _ differs ∙ h.owned id (sym (w.others id differs) ∙ e)
  ];
}

-- A change that leaves the runs alone and keeps the replay.
pub record IsQuiet (db db' : Database) : Type 0 where
  pub replayed : IsReplayed db → IsReplayed db'
  pub runs : db'.runs ≡ db.runs

same_rows : (db db' : Database) → db'.runs ≡ db.runs → db'.events ≡ db.events → IsQuiet db db'
same_rows db db' e f = record {
  replayed = λ h. record {
    states = λ id r found.
        h.states id r (ap (lookup id) (sym e) ∙ found)
        ∙ ap (λ es. replay RunState.pending (of_run id es)) (sym f);
    owned = λ id gone. ap (of_run id) f ∙ h.owned id (ap (lookup id) (sym e) ∙ gone);
  };
  runs = e;
}

abbrev runs_of : {d d' : Database} → d ≡ d' → d.runs ≡ d'.runs
runs_of e = ap (λ (d : Database). d.runs) e

abbrev events_of : {d d' : Database} → d ≡ d' → d.events ≡ d'.events
events_of e = ap (λ (d : Database). d.events) e

pub known-run :
    (run : String) (rows : List (String × Run))
    → has_key rows run ≡ true
    → (r : Run) × (lookup run rows ≡ some r)
known-run run rows h = elim (Option-cases (lookup run rows)) [
  | inl e ↦ absurd (true≢false (sym (rw e at h)))
  | inr (r, e) ↦ (r, e)
]

pub neutral-IsQuiet : Neutral IsQuiet
neutral-IsQuiet = record {
  same = λ db. same_rows db db refl refl;
  trans = λ a b c p q. record { replayed = λ h. q.replayed (p.replayed h); runs = q.runs ∙ p.runs };
  step_added = λ id s db db' u h.
      let e = (insert_step_inv id s db db' u h).1 in same_rows db db' (runs_of e) (events_of e);
  step_moved = λ id from change open_states db db' o h.
      elim (update_step_inv id from change db db' o h) [
        | inl e ↦ same_rows db db' (runs_of e) (events_of e)
        | inr (s, found, allowed, e) ↦ same_rows db db' (runs_of e) (events_of e)
      ];
  turn_added = λ id t db db' u known h.
      let e = (insert_turn_inv id t db db' u h).2 in same_rows db db' (runs_of e) (events_of e);
  turn_settled = λ now id to ended db db' o h. elim (settle_row_inv now id to db db' o h) [
    | inl (missed, e) ↦ same_rows db db' (runs_of e) (events_of e)
    | inr (t, found, live, row, e) ↦ same_rows db db' (runs_of e) (events_of e)
  ];
  logged = λ now run turn step kind p neutral db db' e h.
      let (known, q) = append_event_inv now run turn step kind p db db' e h in
      let (r, found) = known-run run db.runs known in
      subst (λ d. IsQuiet db d) (sym q)
        (record {
          replayed =
              logged-IsReplayed now run turn step kind p db db.runs r r found
                (record { written = found; others = λ id _. refl })
                (apply_event-neutral kind r.state neutral);
          runs = refl;
        });
}
