-- ===== src/Runtime/Effects.antt =====
-- What a statement of control-plane/internal/runtime/store.go that was not refused did to the database.
use iterabase_mono.Common.{
  ℕ, ◌+◌, String, ◌≡◌, refl, sym, ap, ◌⊎◌, inl, inr, Bool, true, false, not, ◌&&◌, ◌||◌, Option,
  none, some, List, [], ◌∷◌, ◌++◌, arith, ◌==◌, Bool-cases, Option-cases, if◌then◌else◌,
}
use iterabase_mono.Common.Dict.{lookup, insert, has_key, is_none}
use iterabase_mono.Common.Result.{Result, ok, err, ok-injective}
use iterabase_mono.Work.Attempt.{RunState}
use iterabase_mono.Runtime.Rows.{
  StepState, TurnState, Run, Step, Turn, Payload, Event, Database, StoreError, is_active_turn,
  is_any_run, is_any_step, nullable, duplicate_key, check_violation, missing_reference,
  session_busy, step_running,
}
use iterabase_mono.Runtime.Transitions.{row_or}
use iterabase_mono.Runtime.Statements.{
  Tx, insert_run, update_run, insert_step, update_step, insert_turn, settle_row, append_event_tx,
  max_seq, count_active, has_seq, is_running_turn, settled_turn, new_event, refers,
}

-- `if failed { return e }`, before the rest of a statement.
pub passes {ℓ} :
    {A : Type ℓ} (b : Bool) (e : StoreError) (m : Result StoreError A) {v : A}
    → (if b then err e else m) ≡ ok v
    → (b ≡ false) × (m ≡ ok v)
passes true e m h = cc
passes false e m h = (refl, h)

left_false : (a b : Bool) → (a || b) ≡ false → a ≡ false
left_false a b h = ground (arith, h)

-- What the database is after a statement that returned it.
ended_in :
    {A : Type 0} (a b : A) (db db' : Database)
    → ◌≡◌ {A = Result StoreError (A × Database)} (ok (a, db)) (ok (b, db'))
    → db' ≡ db
ended_in a b db db' h = ap (λ p. p.1) (sym (ok-injective (a, db) (b, db') h))

absent : {A : Type 0} (o : Option A) → not (is_none o) ≡ false → o ≡ none
absent none h = refl
absent (some a) h = cc

value_in :
    {A : Type 0} (a b : A) (db db' : Database)
    → ◌≡◌ {A = Result StoreError (A × Database)} (ok (a, db)) (ok (b, db'))
    → b ≡ a
value_in a b db db' h = ap (λ p. p.0) (sym (ok-injective (a, db) (b, db') h))

pub both_in :
    {A : Type 0} (a b : A) (db db' : Database)
    → ◌≡◌ {A = Result StoreError (A × Database)} (ok (a, db)) (ok (b, db'))
    → (b ≡ a) × (db' ≡ db)
both_in a b db db' h = (value_in a b db db' h, ended_in a b db db' h)

pub insert_run_inv :
    (id : String) (r : Run) (db db' : Database) (u : Unit)
    → insert_run id r db ≡ ok (u, db')
    → (lookup id db.runs ≡ none) × (db' ≡ record db { runs = insert id r db.runs })
unfolding insert_run
insert_run_inv id r db db' u h =
    let (new, h1) = passes (has_key db.runs id) duplicate_key _ h in
    let (checked, h2) = passes _ check_violation _ h1 in
    (absent (lookup id db.runs) new, ended_in tt u _ db' h2)

pub update_run_inv :
    (id : String) (from : List RunState) (change : Run → Run) (db db' : Database) (o : Option Run)
    → update_run id from change db ≡ ok (o, db')
    → ((o ≡ none) × (db' ≡ db))
      ⊎ ((r : Run) × (lookup id db.runs ≡ some r)
          × (is_any_run from r.state ≡ true)
          × (o ≡ some (change r))
          × (db' ≡ record db { runs = insert id (change r) db.runs }))
unfolding update_run
update_run_inv id from change db db' o h = elim (Option-cases (lookup id db.runs)) [
  | inl e ↦ inl (both_in none o db db' (rw (e, update_run) at h))
  | inr (r, e) ↦ elim (Bool-cases (is_any_run from r.state)) [
    | inl allowed ↦
        let (row, q) = both_in (some (change r)) o _ db' (rw (e, update_run, allowed) at h) in
        inr (r, e, allowed, row, q)
    | inr other ↦ inl (both_in none o db db' (rw (e, update_run, other) at h))
  ]
]

pub insert_step_inv :
    (id : String) (s : Step) (db db' : Database) (u : Unit)
    → insert_step id s db ≡ ok (u, db')
    → (lookup id db.steps ≡ none) × (db' ≡ record db { steps = insert id s db.steps })
unfolding insert_step
insert_step_inv id s db db' u h =
    let (new, h1) =
      passes (has_key db.steps id || has_seq s.run_id s.seq db.steps) duplicate_key _ h in
    let (checked, h2) = passes _ check_violation _ h1 in
    (absent (lookup id db.steps) (left_false (has_key db.steps id) _ new), ended_in tt u _ db' h2)

pub update_step_inv :
    (id : String) (from : List StepState) (change : Step → Step) (db db' : Database)
    (o : Option Step)
    → update_step id from change db ≡ ok (o, db')
    → (db' ≡ db)
      ⊎ ((s : Step) × (lookup id db.steps ≡ some s)
          × (is_any_step from s.state ≡ true)
          × (db' ≡ record db { steps = insert id (change s) db.steps }))
unfolding update_step
update_step_inv id from change db db' o h = elim (Option-cases (lookup id db.steps)) [
  | inl e ↦ inl (ended_in none o db db' (rw (e, update_step) at h))
  | inr (s, e) ↦ elim (Bool-cases (is_any_step from s.state)) [
    | inl allowed ↦
        let (free, h1) = passes _ step_running _ (rw (e, update_step, allowed) at h) in
        inr (s, e, allowed, ended_in _ o _ db' h1)
    | inr other ↦ inl (ended_in none o db db' (rw (e, update_step, other) at h))
  ]
]

pub insert_turn_inv :
    (id : String) (t : Turn) (db db' : Database) (u : Unit)
    → insert_turn id t db ≡ ok (u, db')
    → (lookup id db.turns ≡ none)
      × (is_active_turn t.state ≡ true → count_active t.session_id db.turns ≡ 0)
      × (db' ≡ record db { turns = insert id t db.turns })
unfolding insert_turn
insert_turn_inv id t db db' u h =
    let (new, h1) = passes (has_key db.turns id) duplicate_key _ h in
    let (known, h2) = passes _ missing_reference _ h1 in
    let (free, h3) =
      passes (is_active_turn t.state && not (count_active t.session_id db.turns == 0)) session_busy
        _ h2 in
    (
      absent (lookup id db.turns) new,
      (λ active. ground (arith, free, active)),
      ended_in tt u _ db' h3,
    )

running_state : (s : TurnState) → is_running_turn s ≡ true → s ≡ TurnState.running
running_state TurnState.running h = refl
running_state TurnState.pending h = cc
running_state TurnState.succeeded h = cc
running_state TurnState.failed h = cc
running_state TurnState.aborted h = cc

pub settle_row_inv :
    (now : ℕ) (id : String) (to : TurnState) (db db' : Database) (o : Option Turn)
    → settle_row now id to db ≡ ok (o, db')
    → ((o ≡ none) × (db' ≡ db))
      ⊎ ((t : Turn) × (lookup id db.turns ≡ some t)
          × (t.state ≡ TurnState.running)
          × (o ≡ some (settled_turn now to t))
          × (db' ≡ record db { turns = insert id (settled_turn now to t) db.turns }))
unfolding settle_row
settle_row_inv now id to db db' o h = elim (Option-cases (lookup id db.turns)) [
  | inl e ↦ inl (both_in none o db db' (rw (e, settle_row) at h))
  | inr (t, e) ↦ elim (Bool-cases (is_running_turn t.state)) [
    | inl live ↦
        let (row, q) =
          both_in (some (settled_turn now to t)) o _ db' (rw (e, settle_row, live) at h) in
        inr (t, e, running_state t.state live, row, q)
    | inr other ↦ inl (both_in none o db db' (rw (e, settle_row, other) at h))
  ]
]

pub append_event_inv :
    (now : ℕ) (run turn step kind : String) (p : Payload) (db db' : Database) (e : Event)
    → append_event_tx now run turn step kind p db ≡ ok (e, db')
    → (has_key db.runs run ≡ true)
      × (let e' = new_event now run turn step (max_seq run db.events + 1) kind p in
          db' ≡ record db { events = db.events ++ e' ∷ [] })
unfolding append_event_tx
append_event_inv now run turn step kind p db db' e h =
    let (known, h1) =
      passes
        (not (
          has_key db.runs run
          && refers db.turns (nullable turn)
          && refers db.steps (nullable step)))
        missing_reference _ h in
    (
      ground (arith, known),
      ended_in (new_event now run turn step (max_seq run db.events + 1) kind p) e _ db' h1,
    )

-- A statement that ends in an error never returns.
abbrev pub IsRefused : {A : Type 0} → Tx A → Type 0
IsRefused {A} m = (db db' : Database) (a : A) → m db ≡ ok (a, db') → ⊥

pub row_or_inv :
    {A : Type 0} (o : Option A) (m : Tx A) (db db' : Database) (a : A)
    → IsRefused m
    → row_or o m db ≡ ok (a, db')
    → (o ≡ some a) × (db' ≡ db)
row_or_inv none m db db' a never h = absurd (never db db' a h)
row_or_inv (some b) m db db' a never h = let (q, e) = both_in b a db db' h in (ap some (sym q), e)
