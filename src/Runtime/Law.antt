-- ===== src/Runtime/Law.antt =====
-- What holds of every statement of control-plane/internal/runtime/store.go that writes holds of every
-- operation: a relation between the database before and after, given for the statements, carries over.
use iterabase_mono.Common.{
  ℕ, ◌+◌, ◌++◌, ◌∙◌, String, ◌≡◌, refl, sym, ap, subst, Bool, true, false, Option, none, some, inl,
  inr, List, [], ◌∷◌, Option-cases, if◌then◌else◌,
}
use iterabase_mono.Common.Dict.{lookup, has_key}
use iterabase_mono.Common.Result.{Result-cases, Result, ok, err, ok-injective}
use iterabase_mono.Work.Attempt.{RunState}
use iterabase_mono.Runtime.Rows.{
  StepState, TurnState, Run, Step, Turn, Payload, Database, StoreError, not_found, is_terminal_run,
  is_step_terminal, is_active_turn, is_any_run, is_any_step, is_run_event,
}
use iterabase_mono.Runtime.Statements.{
  Tx, ◌>>=◌, ◌>>◌, pure, fail, read, get, insert_run, update_run, insert_step, update_step,
  insert_turn, settle_row, append_event_tx, new_event, max_seq,
}
use iterabase_mono.Runtime.Effects.{IsRefused, both_in, append_event_inv}
use iterabase_mono.Runtime.Transitions.{row_or}

abbrev pub IsKept : (Database → Database → Type 0) → {A : Type 0} → Tx A → Type 0
IsKept R {A} m = (db db' : Database) (a : A) → m db ≡ ok (a, db') → R db db'

abbrev pub IsOpen : List RunState → Type 0
IsOpen from = (s : RunState) → is_any_run from s ≡ true → is_terminal_run s ≡ false

abbrev pub IsOpenStep : List StepState → Type 0
IsOpenStep from = (s : StepState) → is_any_step from s ≡ true → is_step_terminal s ≡ false

-- The turn carries the session of its run.
abbrev pub IsInSession : Turn → Database → Type 0
IsInSession t db = (r : Run) × (lookup t.run_id db.runs ≡ some r) × (r.session_id ≡ t.session_id)

-- What is given of the statements that leave the runs alone and log no run-level event.
pub record Neutral (R : Database → Database → Type 0) : Type 0 where
  pub same : (db : Database) → R db db
  pub trans : (a b c : Database) → R a b → R b c → R a c
  pub step_added : (id : String) (s : Step) → IsKept R (insert_step id s)
  pub step_moved :
      (id : String) (from : List StepState) (change : Step → Step)
      → IsOpenStep from
      → IsKept R (update_step id from change)
  pub turn_added :
      (id : String) (t : Turn) (db db' : Database) (u : Unit)
      → IsInSession t db
      → insert_turn id t db ≡ ok (u, db')
      → R db db'
  pub turn_settled :
      (now : ℕ) (id : String) (to : TurnState)
      → is_active_turn to ≡ false
      → IsKept R (settle_row now id to)
  pub logged :
      (now : ℕ) (run turn step kind : String) (p : Payload)
      → is_run_event kind ≡ false
      → IsKept R (append_event_tx now run turn step kind p)

-- And of all of them.
pub record Law (R : Database → Database → Type 0) : Type 0 where
  pub same : (db : Database) → R db db
  pub trans : (a b c : Database) → R a b → R b c → R a c
  pub run_added : (id : String) (r : Run) → IsKept R (insert_run id r)
  pub run_moved :
      (id : String) (from : List RunState) (change : Run → Run)
      → IsOpen from
      → ((r : Run) → (change r).session_id ≡ r.session_id)
      → IsKept R (update_run id from change)
  pub step_added : (id : String) (s : Step) → IsKept R (insert_step id s)
  pub step_moved :
      (id : String) (from : List StepState) (change : Step → Step)
      → IsOpenStep from
      → IsKept R (update_step id from change)
  pub turn_added :
      (id : String) (t : Turn) (db db' : Database) (u : Unit)
      → IsInSession t db
      → insert_turn id t db ≡ ok (u, db')
      → R db db'
  pub turn_settled :
      (now : ℕ) (id : String) (to : TurnState)
      → is_active_turn to ≡ false
      → IsKept R (settle_row now id to)
  pub logged :
      (now : ℕ) (run turn step kind : String) (p : Payload)
      → IsKept R (append_event_tx now run turn step kind p)

pub neutral_of : {R : Database → Database → Type 0} → Law R → Neutral R
neutral_of law = record {
  same = law.same;
  trans = law.trans;
  step_added = law.step_added;
  step_moved = law.step_moved;
  turn_added = law.turn_added;
  turn_settled = law.turn_settled;
  logged = λ now run turn step kind p _. law.logged now run turn step kind p;
}

pub ok≢err {ℓ κ} :
    {E : Type ℓ} {A : Type κ} (a : A) (e : E) → ◌≡◌ {A = Result E A} (err e) (ok a) → ⊥
ok≢err a e h = cc

-- Where a chain of statements succeeds, both parts did.
pub bind_inv :
    {A B : Type 0} (m : Tx A) (f : A → Tx B) (db : Database) {b : B} {db' : Database}
    → (m >>= f) db ≡ ok (b, db')
    → (a : A) × (mid : Database) × (m db ≡ ok (a, mid)) × (f a mid ≡ ok (b, db'))
unfolding ◌>>=◌
bind_inv m f db {b} {db'} h = elim (Result-cases (m db)) [
  | inl (e, p) ↦ absurd (ok≢err (b, db') e (rw (p, ◌>>=◌) at h))
  | inr ((a, mid), p) ↦ (a, mid, p, rw (p, ◌>>=◌) at h)
]

pub bind_ok :
    {A B : Type 0} (m : Tx A) (f : A → Tx B) (db mid : Database) (a : A)
    → m db ≡ ok (a, mid)
    → (m >>= f) db ≡ f a mid
unfolding ◌>>=◌
bind_ok m f db mid a h = rw (h, ◌>>=◌) refl

pub bind_err :
    {A B : Type 0} (m : Tx A) (f : A → Tx B) (db : Database) (e : StoreError)
    → m db ≡ err e
    → (m >>= f) db ≡ err e
unfolding ◌>>=◌
bind_err m f db e h = rw (h, ◌>>=◌) refl

pub get_inv :
    {A : Type 0} (table : Database → List (String × A)) (id : String) (db db' : Database) (a : A)
    → get table id db ≡ ok (a, db')
    → (lookup id (table db) ≡ some a) × (db' ≡ db)
get_inv table id db db' a h = elim (Option-cases (lookup id (table db))) [
  | inl e ↦ absurd (ok≢err (a, db') not_found (rw (e, get) at h))
  | inr (row, e) ↦
      let (same, q) = both_in row a db db' (rw (e, get) at h) in
      (e ∙ ap (λ x. some x) (sym same), q)
]

-- A read of a row by its id, followed by an error.
pub get-fail-IsRefused :
    {A B : Type 0} (table : Database → List (String × A)) (id : String) (e : A → StoreError)
    → IsRefused {A = B} (get table id >>= λ a. fail (e a))
get-fail-IsRefused table id e db db' b h =
    let (a, mid, p, q) = bind_inv (get table id) (λ a. fail (e a)) db h in ok≢err (b, db') (e a) q

-- The database with one more event.
abbrev pub with_event : ℕ → String → String → String → String → Payload → Database → Database
with_event now run turn step kind p db =
    let e = new_event now run turn step (max_seq run db.events + 1) kind p in
    record db { events = db.events ++ e ∷ [] }

-- An event appended as the last statement but one.
pub logged_inv :
    {A : Type 0} (now : ℕ) (run turn step kind : String) (p : Payload) (a b : A) (db db' : Database)
    → (append_event_tx now run turn step kind p >> pure a) db ≡ ok (b, db')
    → (has_key db.runs run ≡ true) × (b ≡ a) × (db' ≡ with_event now run turn step kind p db)
logged_inv now run turn step kind p a b db db' h =
    let (e, mid, first, last) = bind_inv (append_event_tx now run turn step kind p) _ db h in
    let (known, q) = append_event_inv now run turn step kind p db mid e first in
    let (same, r) = both_in a b mid db' last in (known, same, r ∙ q)

module _ (R : Database → Database → Type 0) (law : Neutral R) where
  pub bind-IsKept :
      {A B : Type 0} (m : Tx A) (f : A → Tx B)
      → IsKept R m
      → ((a : A) → IsKept R (f a))
      → IsKept R (m >>= f)
  bind-IsKept m f km kf db db' b h =
      let (a, mid, p, q) = bind_inv m f db h in
      law.trans db mid db' (km db mid a p) (kf a mid db' b q)

  pub pure-IsKept : {A : Type 0} (a : A) → IsKept R (pure a)
  pure-IsKept a db db' b h =
      let f : (a, db) ≡ (b, db') = ok-injective (a, db) (b, db') h in
      subst (λ d. R db d) (ap (λ p. p.1) f) (law.same db)

  pub fail-IsKept : {A : Type 0} (e : StoreError) → IsKept R (fail {A = A} e)
  fail-IsKept e db db' b h = absurd (ok≢err (b, db') e h)

  pub get-IsKept :
      {A : Type 0} (table : Database → List (String × A)) (id : String) → IsKept R (get table id)
  get-IsKept table id db db' b h = elim (Option-cases (lookup id (table db))) [
    | inl e ↦ absurd (ok≢err (b, db') not_found (rw (e, get) at h))
    | inr (a, e) ↦ pure-IsKept a db db' b (rw (e, get) at h)
  ]

  pub read-IsKept : {A : Type 0} (f : Database → A) → IsKept R (read f)
  read-IsKept f db db' b h = pure-IsKept (f db) db db' b h

  pub row_or-IsKept : {A : Type 0} (o : Option A) (m : Tx A) → IsKept R m → IsKept R (row_or o m)
  row_or-IsKept none m k = k
  row_or-IsKept (some a) m k = pure-IsKept a

  pub if-IsKept :
      {A : Type 0} (b : Bool) (m n : Tx A) → IsKept R m → IsKept R n → IsKept R (if b then m else n)
  if-IsKept true m n km kn = km
  if-IsKept false m n km kn = kn
