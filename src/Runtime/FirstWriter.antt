-- ===== src/Runtime/FirstWriter.antt =====
-- Who settles a turn, of SettleTurn and SettleTurnAndAdvance of control-plane/internal/runtime/store.go.
use iterabase_mono.Common.{
  ℕ, String, ◌≡◌, refl, sym, ap, ◌∙◌, ◌⊎◌, inl, inr, false, none, some, List, arith, eq_iff,
}
use mathlib.Core.Path.{subst₂}
use mathlib.Core.Option.{some-injective, none-ne-some}
use iterabase_mono.Common.Dict.{lookup, insert, lookup-insert}
use iterabase_mono.Common.Result.{ok, err}
use iterabase_mono.Work.Attempt.{RunState}
use iterabase_mono.Runtime.Rows.{
  TurnState, Turn, Database, turn_state_is, settlement, invalid_reason, str_ptr,
  turn_state_for_reason, is_active_turn,
}
use iterabase_mono.Runtime.Statements.{
  Tx, ◌>>=◌, found, get, settle_row, settled_turn, is_running_turn,
}
use iterabase_mono.Runtime.Settlement.{
  settle_and_log, turn_transition_err, settle_turn, settle_turn_and_advance,
}
use iterabase_mono.Runtime.Transitions.{row_or}
use iterabase_mono.Runtime.Effects.{row_or_inv, settle_row_inv}
use iterabase_mono.Runtime.Law.{
  neutral_of, bind_ok, bind_err, logged_inv, with_event, get-fail-IsRefused, bind_inv, bind-IsKept,
}
use iterabase_mono.Runtime.Calls.{Op, after}
use iterabase_mono.Runtime.Preserved.{reason-inactive, finish_step-IsKept, advance-IsKept}
use iterabase_mono.Runtime.Terminal.{IsFinal, final_law, after-IsFinal}

-- A reason that the store accepts.
accept :
    {A : Type 0} (reason : String) (to : TurnState) (f : TurnState → Tx A) (db : Database)
    → turn_state_for_reason reason ≡ some to
    → (found (turn_state_for_reason reason) (invalid_reason reason) >>= f) db ≡ f to db
accept reason to f db e =
    bind_ok (found (turn_state_for_reason reason) (invalid_reason reason)) f db db to (rw e refl)

-- The database after the turn's row was settled and the event appended.
pub settle_and_log_inv :
    (now : ℕ) (id reason : String) (to : TurnState) (count : ℕ) (db db' : Database) (t : Turn)
    → settle_and_log now id reason to count db ≡ ok (t, db')
    → (old : Turn) × (lookup id db.turns ≡ some old)
      × (old.state ≡ TurnState.running)
      × (t ≡ settled_turn now to old)
      × (db'
          ≡ with_event now t.run_id id
              (str_ptr t.step_id)
              "settled"
              (settlement reason count)
              (record db { turns = insert id t db.turns }))
unfolding settle_and_log turn_transition_err
settle_and_log_inv now id reason to count db db' t h =
    let (o, mid, first, rest) = bind_inv (settle_row now id to) _ db h in
    let (t', mid', second, last) = bind_inv (row_or o (turn_transition_err id)) _ mid rest in
    let (row, e2) =
      row_or_inv o _ mid mid' t' (get-fail-IsRefused Database.turns id (λ x. turn_state_is x.state))
        second in
    let (known, same, e3) =
      logged_inv now t'.run_id id (str_ptr t'.step_id) "settled" _ t' t mid' db' last in
    elim (settle_row_inv now id to db mid o first) [
      | inl (missed, e1) ↦ absurd (none-ne-some t' (sym missed ∙ row))
      | inr (old, found_old, live, row', e1) ↦
          let q : t ≡ settled_turn now to old =
            same ∙ some-injective t' (settled_turn now to old) (sym row ∙ row') in
          let settled_db : mid' ≡ record db { turns = insert id t db.turns } =
            e2 ∙ e1 ∙ ap (λ x. record db { turns = insert id x db.turns }) (sym q) in
          (
            old,
            found_old,
            live,
            q,
            subst₂
                (λ x d.
                  db'
                  ≡ with_event now x.run_id id (str_ptr x.step_id) "settled"
                      (settlement reason count) d)
                (sym same) settled_db e3,
          )
    ]

inactive-idle : (s : TurnState) → is_active_turn s ≡ false → is_running_turn s ≡ false
unfolding is_active_turn
inactive-idle TurnState.running h = cc
inactive-idle TurnState.pending h = refl
inactive-idle TurnState.succeeded h = refl
inactive-idle TurnState.failed h = refl
inactive-idle TurnState.aborted h = refl

-- The row of a turn that is settled already matches no row of the update.
refused :
    (now : ℕ) (id reason : String) (to : TurnState) (count : ℕ) (db : Database) (t : Turn)
    → lookup id db.turns ≡ some t
    → is_active_turn t.state ≡ false
    → settle_and_log now id reason to count db ≡ err (turn_state_is t.state)
unfolding settle_and_log turn_transition_err
refused now id reason to count db t e ended =
    let idle : is_running_turn t.state ≡ false = inactive-idle t.state ended in
    let missed : settle_row now id to db ≡ ok (none, db) =
      unfold settle_row in rw (e, settle_row) (rw idle refl) in
    let row : get Database.turns id db ≡ ok (t, db) = rw (e, get) refl in
    bind_ok (settle_row now id to) _ db db none missed
    ∙ bind_err (turn_transition_err id) _ db (turn_state_is t.state)
        (bind_ok (get Database.turns id) _ db db t row)

-- What a settlement leaves in the row of its turn.
settled_row :
    (now : ℕ) (id reason : String) (to : TurnState) (count : ℕ) (db db' : Database) (t : Turn)
    → settle_and_log now id reason to count db ≡ ok (t, db')
    → (lookup id db'.turns ≡ some t) × (t.state ≡ to)
settled_row now id reason to count db db' t h =
    let (old, found_old, live, row, e) = settle_and_log_inv now id reason to count db db' t h in
    (
      ap (λ (d : Database). lookup id d.turns) e
          ∙ lookup-insert id id t db.turns
          ∙ ground (arith, eq_iff id id),
      ap (λ (x : Turn). x.state) row,
    )

-- The turn's row after the whole transaction.
advanced_row :
    (now : ℕ) (id reason : String) (to : TurnState) (db db' : Database) (s : RunState)
    → turn_state_for_reason reason ≡ some to
    → settle_turn_and_advance now id reason db ≡ ok (s, db')
    → (t : Turn) × (lookup id db'.turns ≡ some t) × (t.state ≡ to)
unfolding settle_turn_and_advance
advanced_row now id reason to db db' s e h =
    let h1 = sym (accept reason to _ db e) ∙ h in
    let (t, mid, first, rest) = bind_inv (settle_and_log now id reason to 0) _ db h1 in
    let (row, state) = settled_row now id reason to 0 db mid t first in
    let ended : is_active_turn t.state ≡ false =
      ap is_active_turn state ∙ reason-inactive reason to e in
    let kept : IsFinal mid db' =
      bind-IsKept IsFinal (neutral_of final_law) _ _
        (finish_step-IsKept IsFinal (neutral_of final_law) now reason t.run_id t.step_id)
        (λ _. advance-IsKept IsFinal final_law now t.run_id reason) mid db' s rest in
    (t, kept.turns id t row (rw ended refl), state)

-- A settlement of the turn that succeeded, by either call.
abbrev pub IsSettledBy : ℕ → String → String → Database → Database → Type 0
IsSettledBy now id reason db db' =
    ((s : RunState) × (settle_turn_and_advance now id reason db ≡ ok (s, db')))
    ⊎ ((count : ℕ) × (t : Turn) × (settle_turn now id reason count db ≡ ok (t, db')))

first_row :
    (now : ℕ) (id reason : String) (to : TurnState) (db db' : Database)
    → turn_state_for_reason reason ≡ some to
    → IsSettledBy now id reason db db'
    → (t : Turn) × (lookup id db'.turns ≡ some t) × (t.state ≡ to)
unfolding settle_turn
first_row now id reason to db db' e (inl (s, h)) = advanced_row now id reason to db db' s e h
first_row now id reason to db db' e (inr (count, t, h)) =
    let h1 = sym (accept reason to _ db e) ∙ h in
    let (row, state) = settled_row now id reason to count db db' t h1 in (t, row, state)

-- Once a turn has been settled by either call, every later settlement of the turn, by either call and for
-- any valid reason, fails with the state of the first one, whatever calls come between.
pub settle_turn-first_writer :
    (now : ℕ) (id reason : String) (to : TurnState) (db db' : Database) (ops : List (ℕ × Op))
    (later : ℕ) (again : String) (wanted : TurnState) (count : ℕ)
    → turn_state_for_reason reason ≡ some to
    → IsSettledBy now id reason db db'
    → turn_state_for_reason again ≡ some wanted
    → (settle_turn_and_advance later id again (after ops db') ≡ err (turn_state_is to))
      × (settle_turn later id again count (after ops db') ≡ err (turn_state_is to))
unfolding settle_turn_and_advance settle_turn
settle_turn-first_writer now id reason to db db' ops later again wanted count e h valid =
    let (t, row, state) = first_row now id reason to db db' e h in
    let ended : is_active_turn t.state ≡ false =
      ap is_active_turn state ∙ reason-inactive reason to e in
    let row' = (after-IsFinal ops db').turns id t row (rw ended refl) in
    let fails : (n : ℕ)
        → settle_and_log later id again wanted n (after ops db') ≡ err (turn_state_is to) =
      λ n.
        refused later id again wanted n (after ops db') t row' ended
        ∙ ap (λ x. err (turn_state_is x)) state in
    (
      accept again wanted _ (after ops db') valid ∙ bind_err _ _ (after ops db') _ (fails 0),
      accept again wanted _ (after ops db') valid ∙ fails count,
    )
