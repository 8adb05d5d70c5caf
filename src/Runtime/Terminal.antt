-- ===== src/Runtime/Terminal.antt =====
-- The rows of control-plane/internal/runtime/store.go that reached a terminal state.
use iterabase_mono.Common.{
  ℕ, String, ◌≡◌, refl, sym, ◌∙◌, subst, inl, inr, Bool, true, false, not, none, some, List, arith,
  eq_iff, Bool-cases, ◌==ₛ◌,
}
use mathlib.Core.Option.{some-injective}
use iterabase_mono.Common.Dict.{lookup, insert, lookup-insert}
use iterabase_mono.Runtime.Rows.{
  Run, Step, Turn, Database, is_terminal_run, is_step_terminal, is_active_turn,
}
use iterabase_mono.Runtime.Statements.{settled_turn}
use iterabase_mono.Runtime.Effects.{
  insert_run_inv, update_run_inv, insert_step_inv, update_step_inv, insert_turn_inv, settle_row_inv,
  append_event_inv,
}
use iterabase_mono.Runtime.Law.{Law}
use iterabase_mono.Runtime.Calls.{Op, after}
use iterabase_mono.Runtime.Preserved.{after-IsKept}

module _ {A : Type 0} (ended : A → Bool) where
  abbrev IsFrozen : List (String × A) → List (String × A) → Type 0
  IsFrozen m m' =
      (id : String) (a : A) → lookup id m ≡ some a → ended a ≡ true → lookup id m' ≡ some a

  insert-IsFrozen :
      (id : String) (new : A) (m : List (String × A))
      → ((a : A) → lookup id m ≡ some a → ended a ≡ false)
      → IsFrozen m (insert id new m)
  insert-IsFrozen id new m live other a e over = elim (Bool-cases (id ==ₛ other)) [
    | inl same ↦
        let q = (eq_iff id other).0 same in
        let running = live a (subst (λ k. lookup k m ≡ some a) (sym q) e) in
        ground (arith, running, over)
    | inr differs ↦ lookup-insert id other new m ∙ rw differs e
  ]

abbrev settled_state : Turn → Bool
settled_state t = not (is_active_turn t.state)

-- No row of the three tables that is terminal before differs afterwards.
pub record IsFinal (before later : Database) : Type 0 where
  pub runs : IsFrozen (λ r. is_terminal_run r.state) before.runs later.runs
  pub steps : IsFrozen (λ s. is_step_terminal s.state) before.steps later.steps
  pub turns : IsFrozen settled_state before.turns later.turns

abbrev nothing_changed : (db : Database) → IsFinal db db
nothing_changed db = record { runs = λ id a e h. e; steps = λ id a e h. e; turns = λ id a e h. e }

unused :
    {A : Type 0} (id : String) (m : List (String × A)) (ended : A → Bool)
    → lookup id m ≡ none
    → (a : A) → lookup id m ≡ some a
    → ended a ≡ false
unused id m ended e a f = cc

only :
    {A : Type 0} (id : String) (m : List (String × A)) (ended : A → Bool) (old : A)
    → lookup id m ≡ some old
    → ended old ≡ false
    → (a : A) → lookup id m ≡ some a
    → ended a ≡ false
only id m ended old e live a f =
    subst (λ x. ended x ≡ false) (some-injective old a (sym e ∙ f)) live

runs_written :
    (db : Database) (rows : List (String × Run))
    → IsFrozen (λ r. is_terminal_run r.state) db.runs rows
    → IsFinal db (record db { runs = rows })
runs_written db rows h = record { runs = h; steps = λ id a e k. e; turns = λ id a e k. e }

steps_written :
    (db : Database) (rows : List (String × Step))
    → IsFrozen (λ s. is_step_terminal s.state) db.steps rows
    → IsFinal db (record db { steps = rows })
steps_written db rows h = record { runs = λ id a e k. e; steps = h; turns = λ id a e k. e }

turns_written :
    (db : Database) (rows : List (String × Turn))
    → IsFrozen settled_state db.turns rows
    → IsFinal db (record db { turns = rows })
turns_written db rows h = record { runs = λ id a e k. e; steps = λ id a e k. e; turns = h }

pub final_law : Law IsFinal
final_law = record {
  same = nothing_changed;
  trans = λ a b c p q. record {
    runs = λ id r e h. q.runs id r (p.runs id r e h) h;
    steps = λ id r e h. q.steps id r (p.steps id r e h) h;
    turns = λ id r e h. q.turns id r (p.turns id r e h) h;
  };
  run_added = λ id r db db' u h.
      let (new, e) = insert_run_inv id r db db' u h in
      subst (λ d. IsFinal db d) (sym e)
        (runs_written db _ (insert-IsFrozen _ id r db.runs (unused id db.runs _ new)));
  run_moved = λ id from change open_states same_session db db' o h.
      elim (update_run_inv id from change db db' o h) [
        | inl (missed, e) ↦ subst (λ d. IsFinal db d) (sym e) (nothing_changed db)
        | inr (r, found, allowed, row, e) ↦
            subst (λ d. IsFinal db d) (sym e)
              (runs_written db _ (
                insert-IsFrozen _ id (change r) db.runs
                  (only id db.runs _ r found (open_states r.state allowed))))
      ];
  step_added = λ id s db db' u h.
      let (new, e) = insert_step_inv id s db db' u h in
      subst (λ d. IsFinal db d) (sym e)
        (steps_written db _ (insert-IsFrozen _ id s db.steps (unused id db.steps _ new)));
  step_moved = λ id from change open_states db db' o h.
      elim (update_step_inv id from change db db' o h) [
        | inl e ↦ subst (λ d. IsFinal db d) (sym e) (nothing_changed db)
        | inr (s, found, allowed, e) ↦
            subst (λ d. IsFinal db d) (sym e)
              (steps_written db _ (
                insert-IsFrozen _ id (change s) db.steps
                  (only id db.steps _ s found (open_states s.state allowed))))
      ];
  turn_added = λ id t db db' u known h.
      let (new, free, e) = insert_turn_inv id t db db' u h in
      subst (λ d. IsFinal db d) (sym e)
        (turns_written db _ (insert-IsFrozen _ id t db.turns (unused id db.turns _ new)));
  turn_settled = λ now id to ended db db' o h. elim (settle_row_inv now id to db db' o h) [
    | inl (missed, e) ↦ subst (λ d. IsFinal db d) (sym e) (nothing_changed db)
    | inr (t, found, live, row, e) ↦
        subst (λ d. IsFinal db d) (sym e)
          (turns_written db _ (
            insert-IsFrozen _ id (settled_turn now to t) db.turns
              (only id db.turns _ t found (rw live (unfold is_active_turn in refl)))))
  ];
  logged = λ now run turn step kind p db db' e h.
      let (known, q) = append_event_inv now run turn step kind p db db' e h in
      subst (λ d. IsFinal db d) (sym q)
        (record { runs = λ id r e h. e; steps = λ id s e h. e; turns = λ id t e h. e });
}

-- Whatever calls follow, and whichever of them fail, a run, a step or a turn that has reached a terminal
-- state keeps its whole row: its state and its times are those of the first writer.
pub after-IsFinal : (ops : List (ℕ × Op)) (db : Database) → IsFinal db (after ops db)
after-IsFinal ops db = after-IsKept IsFinal final_law ops db
