-- ===== src/Runtime/Statements.antt =====
-- The SQL statements that control-plane/internal/runtime/store.go sends inside a transaction, with the
-- constraints of migration 000009_runtime.up.sql (and 000016 for a step's kind) that can refuse them.
-- A transaction that fails leaves the database as it was: it has no new one.
use Prim.Native.Nat.{max}
use iterabase_mono.Common.{
  ℕ, ◌+◌, String, Bool, true, false, not, ◌&&◌, ◌||◌, Option, none, some, List, [], ◌∷◌, ◌++◌, ◌==◌,
  ◌==ₛ◌, if◌then◌else◌,
}
use iterabase_mono.Common.Dict.{lookup, insert, has_key}
use iterabase_mono.Common.Result.{Result, ok, err}
use iterabase_mono.Work.Attempt.{RunState}
use iterabase_mono.Runtime.Rows.{
  StepState, TurnState, Run, Step, Turn, Payload, Event, Database, StoreError, not_found,
  duplicate_key, check_violation, missing_reference, session_busy, step_running, is_active_turn,
  is_any_run, is_any_step, nullable, json_payload,
}

abbrev pub Tx : Type 0 → Type 0
Tx A = Database → Result StoreError (A × Database)

infixl 5 ◌>>=◌ ◌>>◌
unfoldable pub ◌>>=◌ : {A B : Type 0} → Tx A → (A → Tx B) → Tx B
(first >>= next) db = elim (first db) [ err e ↦ err e | ok (a, db') ↦ next a db' ]

abbrev pub ◌>>◌ : {A B : Type 0} → Tx A → Tx B → Tx B
first >> second = first >>= λ _. second

abbrev pub pure : {A : Type 0} → A → Tx A
pure a db = ok (a, db)

abbrev pub fail : {A : Type 0} → StoreError → Tx A
fail e db = err e

-- A SELECT.
abbrev pub read : {A : Type 0} → (Database → A) → Tx A
read f db = ok (f db, db)

abbrev pub found : {A : Type 0} → Option A → StoreError → Tx A
found none e = fail e
found (some a) e = pure a

abbrev pub get : {A : Type 0} → (Database → List (String × A)) → String → Tx A
get table id db = elim (lookup id (table db)) [ none ↦ err not_found | some a ↦ ok (a, db) ]

unfoldable pub insert_run : String → Run → Tx (Unit {0})
insert_run id r db =
    if has_key db.runs id
    then err duplicate_key
    else if not (r.kind ==ₛ "chat" || r.kind ==ₛ "workflow")
    then err check_violation
    else ok (tt, record db { runs = insert id r db.runs })

-- `UPDATE runtime.workflow_runs SET ... WHERE id = $1 AND state = ANY($2) RETURNING ...`
unfoldable pub update_run : String → List RunState → (Run → Run) → Tx (Option Run)
update_run id from change db = elim (lookup id db.runs) [
  | none ↦ ok (none, db)
  | some r ↦
      if is_any_run from r.state
      then ok (some (change r), record db { runs = insert id (change r) db.runs })
      else ok (none, db)
]

-- UNIQUE(run_id, seq)
abbrev pub has_seq : String → ℕ → List (String × Step) → Bool
has_seq run seq [] = false
has_seq run seq (e ∷ rest) = e.1.run_id ==ₛ run && e.1.seq == seq || has_seq run seq rest

-- idx_run_steps_one_running, looking past the row that is written.
abbrev pub has_running : String → String → List (String × Step) → Bool
has_running id run [] = false
has_running id run (e ∷ rest) =
    not (e.0 ==ₛ id) && e.1.run_id ==ₛ run && is_any_step (StepState.running ∷ []) e.1.state
    || has_running id run rest

unfoldable pub insert_step : String → Step → Tx (Unit {0})
insert_step id s db =
    if has_key db.steps id || has_seq s.run_id s.seq db.steps
    then err duplicate_key
    else if not (s.kind ==ₛ "agent_task")
    then err check_violation
    else ok (tt, record db { steps = insert id s db.steps })

unfoldable pub update_step : String → List StepState → (Step → Step) → Tx (Option Step)
update_step id from change db = elim (lookup id db.steps) [
  | none ↦ ok (none, db)
  | some s ↦
      if not (is_any_step from s.state)
      then ok (none, db)
      else if is_any_step (StepState.running ∷ []) (change s).state
          && has_running id (change s).run_id db.steps
      then err step_running
      else ok (some (change s), record db { steps = insert id (change s) db.steps })
]

-- idx_turns_one_active_per_session
unfoldable pub count_active : String → List (String × Turn) → ℕ
count_active session [] = 0
count_active session ((id, t) ∷ rest) =
    let later = count_active session rest in
    if t.session_id ==ₛ session && is_active_turn t.state then 1 + later else later

abbrev pub refers {ℓ} : {A : Type ℓ} → List (String × A) → Option String → Bool
refers table none = true
refers table (some id) = has_key table id

-- The unique index of the migration 000009: one active turn in a session.
abbrev pub is_session_busy : Turn → Database → Bool
is_session_busy t db = is_active_turn t.state && not (count_active t.session_id db.turns == 0)

-- The insertion, which the keys and that index of the table may refuse.
unfoldable pub insert_turn : String → Turn → Tx (Unit {0})
insert_turn id t db =
    if has_key db.turns id
    then err duplicate_key
    else if not (has_key db.runs t.run_id && refers db.steps t.step_id)
    then err missing_reference
    else if is_session_busy t db
    then err session_busy
    else ok (tt, record db { turns = insert id t db.turns })

abbrev pub is_running_turn : TurnState → Bool
is_running_turn TurnState.running = true
is_running_turn _ = false

abbrev pub settled_turn : ℕ → TurnState → Turn → Turn
settled_turn now to t = record t { state = to; settled_at = some now }

-- `UPDATE runtime.turns SET state = $2, settled_at = now() WHERE id = $1 AND state = 'running' RETURNING ...`
unfoldable pub settle_row : ℕ → String → TurnState → Tx (Option Turn)
settle_row now id to db = elim (lookup id db.turns) [
  | none ↦ ok (none, db)
  | some t ↦
      if is_running_turn t.state
      then ok (
        some (settled_turn now to t),
        record db { turns = insert id (settled_turn now to t) db.turns },
      )
      else ok (none, db)
]

-- `COALESCE(MAX(seq), 0)` over a run's events
unfoldable pub max_seq : String → List Event → ℕ
max_seq run [] = 0
max_seq run (e ∷ es) =
    let rest = max_seq run es in if e.run_id ==ₛ run then max e.seq rest else rest

abbrev pub new_event : ℕ → String → String → String → ℕ → String → Payload → Event
new_event now run turn step seq kind payload = record {
  run_id = run;
  turn_id = nullable turn;
  step_id = nullable step;
  seq = seq;
  kind = kind;
  payload = json_payload payload;
  ts = now;
}

unfoldable pub append_event_tx : ℕ → String → String → String → String → Payload → Tx Event
append_event_tx now run turn step kind payload db =
    if not
      (has_key db.runs run && refers db.turns (nullable turn) && refers db.steps (nullable step))
    then err missing_reference
    else (let e = new_event now run turn step (max_seq run db.events + 1) kind payload in
        ok (e, record db { events = db.events ++ e ∷ [] }))
