-- ===== src/Runtime/Queries.antt =====
-- The reads of control-plane/internal/runtime/store.go.
use iterabase_mono.Common.{
  ℕ, String, Bool, true, false, ◌&&◌, Option, none, some, List, [], ◌∷◌, ltb, leb, ◌==ₛ◌,
  if◌then◌else◌,
}
use iterabase_mono.Work.Attempt.{RunState}
use iterabase_mono.Runtime.Rows.{
  StepState, Run, Step, Turn, Event, Database, not_found, is_active_turn, is_any_run, is_any_step,
}
use iterabase_mono.Runtime.Statements.{Tx, found, get, max_seq}

unfoldable pub get_run : String → Tx Run
get_run id db = get Database.runs id db

unfoldable pub get_step : String → Tx Step
get_step id db = get Database.steps id db

-- ORDER BY seq, ORDER BY created_at: rows with the same key stay in the order of the table.
module _ {ℓ} {A : Type ℓ} (key : A → ℕ) where
  unfoldable pub place : A → List A → List A
  place a [] = a ∷ []
  place a (b ∷ rest) = if leb (key a) (key b) then a ∷ b ∷ rest else b ∷ place a rest

  unfoldable pub order_by : List A → List A
  order_by [] = []
  order_by (a ∷ rest) = place a (order_by rest)

module _ {ℓ} {A : Type ℓ} where
  unfoldable pub where_rows : (A → Bool) → List A → List A
  where_rows test [] = []
  where_rows test (a ∷ rest) = let kept = where_rows test rest in if test a then a ∷ kept else kept

  abbrev first_row : List A → Option A
  first_row [] = none
  first_row (a ∷ rest) = some a

unfoldable pub list_steps : String → Database → List (String × Step)
list_steps run db = order_by (λ e. e.1.seq) (where_rows (λ e. e.1.run_id ==ₛ run) db.steps)

-- The pending step of a run with the smallest seq.
unfoldable pub next_pending : String → Database → Option (String × Step)
next_pending run db = first_row (
    order_by (λ e. e.1.seq)
      (where_rows (λ e. e.1.run_id ==ₛ run && is_any_step (StepState.pending ∷ []) e.1.state)
        db.steps))

unfoldable pub next_pending_step : String → Tx (String × Step)
next_pending_step run db = found (next_pending run db) not_found db

unfoldable pub list_runs_by_state : RunState → Database → List (String × Run)
list_runs_by_state state db =
    order_by (λ e. e.1.created_at) (where_rows (λ e. is_any_run (state ∷ []) e.1.state) db.runs)

-- Whether a row's step is this one: a null is equal to nothing.
abbrev names_step : String → Option String → Bool
names_step step none = false
names_step step (some other) = other ==ₛ step

unfoldable pub has_turn_for_step : String → Database → Bool
has_turn_for_step step db =
    elim (where_rows (λ (e : String × Turn). names_step step e.1.step_id) db.turns) [
      | [] ↦ false
      | _ ∷ _ ↦ true
    ]

-- No statement of this store sets a turn's `started_at`, by which the source orders the rows.
unfoldable pub active_turn : String → Tx (String × Turn)
active_turn run db =
    found (first_row (where_rows (λ e. e.1.run_id ==ₛ run && is_active_turn e.1.state) db.turns))
      not_found db

unfoldable pub events_since : String → ℕ → Database → List Event
events_since run after db =
    order_by (λ e. e.seq) (where_rows (λ e. e.run_id ==ₛ run && ltb after e.seq) db.events)

unfoldable pub list_events : String → Database → List Event
list_events run db = order_by (λ e. e.seq) (where_rows (λ e. e.run_id ==ₛ run) db.events)

unfoldable pub last_event_seq : String → Database → ℕ
last_event_seq run db = max_seq run db.events
