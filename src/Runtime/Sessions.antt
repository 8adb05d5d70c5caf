-- ===== src/Runtime/Sessions.antt =====
-- The active turns of a session in control-plane/internal/runtime/store.go.
use iterabase_mono.Common.{
  ℕ, ◌+◌, ◌≤◌, String, ◌≡◌, refl, sym, ap, ◌∙◌, subst, inl, inr, true, false, ◌&&◌, none, some,
  List, [], ◌∷◌, arith, eq_iff, Bool-cases, ◌==ₛ◌, if◌then◌else◌,
}
use mathlib.Core.Option.{none-ne-some, some-injective}
use iterabase_mono.Common.Dict.{lookup, insert, lookup-insert}
use iterabase_mono.Runtime.Rows.{Run, Turn, Database, is_active_turn}
use iterabase_mono.Runtime.Statements.{count_active, settled_turn}
use iterabase_mono.Runtime.Effects.{
  insert_run_inv, update_run_inv, insert_step_inv, update_step_inv, insert_turn_inv, settle_row_inv,
  append_event_inv,
}
use iterabase_mono.Runtime.Law.{IsInSession, Law}
use iterabase_mono.Runtime.Calls.{Op, after}
use iterabase_mono.Runtime.Preserved.{after-IsKept}

-- Every session has at most one turn that is pending or running, and every turn carries the session of its run.
pub record IsExclusive (db : Database) : Type 0 where
  pub one : (session : String) → count_active session db.turns ≤ 1
  pub matched : (id : String) (t : Turn) → lookup id db.turns ≡ some t → IsInSession t db

abbrev counts : String → Turn → ℕ
counts session t = if t.session_id ==ₛ session && is_active_turn t.state then 1 else 0

count_active-new :
    (session id : String) (t : Turn) (m : List (String × Turn))
    → lookup id m ≡ none
    → count_active session (insert id t m) ≡ counts session t + count_active session m
unfolding count_active insert lookup
count_active-new session id t [] h = ground arith
count_active-new session id t ((other, old) ∷ m) h = elim (Bool-cases (other ==ₛ id)) [
  | inl same ↦ absurd (none-ne-some old (sym (rw same at h)))
  | inr differs ↦ rw differs (ground (arith, count_active-new session id t m (rw differs at h)))
]

-- The new turn is active only where the index found no active turn of its session.
count_active-added :
    (session id : String) (t : Turn) (m : List (String × Turn))
    → lookup id m ≡ none
    → (is_active_turn t.state ≡ true → count_active t.session_id m ≡ 0)
    → count_active session m ≤ 1
    → count_active session (insert id t m) ≤ 1
count_active-added session id t m new free held =
    let counted = count_active-new session id t m new in
    elim (Bool-cases (t.session_id ==ₛ session)) [
      | inl same ↦ elim (Bool-cases (is_active_turn t.state)) [
        | inl active ↦
            let none_there : count_active session m ≡ 0 =
              ap (λ s. count_active s m) (sym ((eq_iff t.session_id session).0 same))
              ∙ free active in
            ground (arith, counted, none_there, same, active)
        | inr settled ↦ ground (arith, counted, held, same, settled)
      ]
      | inr differs ↦ ground (arith, counted, held, differs)
    ]

count_active-settled :
    (session id : String) (old new : Turn) (m : List (String × Turn))
    → lookup id m ≡ some old
    → is_active_turn new.state ≡ false
    → count_active session (insert id new m) ≤ count_active session m
unfolding count_active insert lookup
count_active-settled session id old new [] h ended = absurd (none-ne-some old h)
count_active-settled session id old new ((other, t) ∷ m) h ended =
    elim (Bool-cases (other ==ₛ id)) [
      | inl same ↦ rw same (ground (arith, ended))
      | inr differs ↦
          rw differs
            (ground (arith, count_active-settled session id old new m (rw differs at h) ended))
    ]

abbrev KeepsExclusive : Database → Database → Type 0
KeepsExclusive db db' = IsExclusive db → IsExclusive db'

-- No run loses or changes its session.
abbrev KeepsRuns : Database → Database → Type 0
KeepsRuns db db' =
    (id : String) (r : Run)
    → lookup id db.runs ≡ some r
    → (r' : Run) × (lookup id db'.runs ≡ some r') × (r'.session_id ≡ r.session_id)

same_turns : (db db' : Database) → db'.turns ≡ db.turns → KeepsRuns db db' → KeepsExclusive db db'
same_turns db db' e keeps h = record {
  one = λ session. subst (λ m. count_active session m ≤ 1) (sym e) (h.one session);
  matched = λ id t found.
      let (r, row, same) = h.matched id t (ap (lookup id) (sym e) ∙ found) in
      let (r', row', same') = keeps t.run_id r row in (r', row', same' ∙ same);
}

same_runs : (db db' : Database) → db'.runs ≡ db.runs → KeepsRuns db db'
same_runs db db' e id r found = (r, ap (lookup id) e ∙ found, refl)

inserted_run :
    (id : String) (new : Run) (db db' : Database)
    → ((r : Run) → lookup id db.runs ≡ some r → new.session_id ≡ r.session_id)
    → db'.runs ≡ insert id new db.runs
    → KeepsRuns db db'
inserted_run id new db db' same_session e other r found =
    let row = ap (lookup other) e ∙ lookup-insert id other new db.runs in
    elim (Bool-cases (id ==ₛ other)) [
      | inl same ↦
          let q = (eq_iff id other).0 same in
          (new, row ∙ rw same refl, same_session r (ap (λ k. lookup k db.runs) q ∙ found))
      | inr differs ↦ (r, row ∙ rw differs found, refl)
    ]

abbrev turns_of : {d d' : Database} → d ≡ d' → d.turns ≡ d'.turns
turns_of e = ap (λ (d : Database). d.turns) e

abbrev runs_of : {d d' : Database} → d ≡ d' → d.runs ≡ d'.runs
runs_of e = ap (λ (d : Database). d.runs) e

unchanged : (db db' : Database) → db'.turns ≡ db.turns → db'.runs ≡ db.runs → KeepsExclusive db db'
unchanged db db' turns runs = same_turns db db' turns (same_runs db db' runs)

-- A written turn carries the session of its run.
written_turn :
    (id : String) (new : Turn) (db db' : Database)
    → IsInSession new db
    → db'.turns ≡ insert id new db.turns
    → db'.runs ≡ db.runs
    → IsExclusive db
    → (other : String) (t : Turn) → lookup other db'.turns ≡ some t
    → IsInSession t db'
written_turn id new db db' known turns runs held other t found =
    let row : lookup other (insert id new db.turns) ≡ some t =
      ap (lookup other) (sym turns) ∙ found in
    let read = sym (lookup-insert id other new db.turns) ∙ row in
    elim (Bool-cases (id ==ₛ other)) [
      | inl same ↦
          let q : new ≡ t = some-injective new t (rw same at read) in
          let (r, there, session) = subst (λ x. IsInSession x db) q known in
          (r, ap (lookup t.run_id) runs ∙ there, session)
      | inr differs ↦
          let (r, there, session) = held.matched other t (rw differs at read) in
          (r, ap (lookup t.run_id) runs ∙ there, session)
    ]

session_law : Law KeepsExclusive
session_law = record {
  same = λ db h. h;
  trans = λ a b c p q h. q (p h);
  run_added = λ id r db db' u h.
      let (new, e) = insert_run_inv id r db db' u h in
      same_turns db db' (turns_of e) (
        inserted_run id r db db' (λ old found. absurd (none-ne-some old (sym new ∙ found)))
          (runs_of e));
  run_moved = λ id from change open_states same_session db db' o h.
      elim (update_run_inv id from change db db' o h) [
        | inl (missed, e) ↦ unchanged db db' (turns_of e) (runs_of e)
        | inr (r, found, allowed, row, e) ↦ same_turns db db' (turns_of e) (
            inserted_run id (change r) db db'
              (λ old there.
                same_session r
                ∙ ap (λ (x : Run). x.session_id) (some-injective r old (sym found ∙ there)))
              (runs_of e))
      ];
  step_added = λ id s db db' u h.
      let e = (insert_step_inv id s db db' u h).1 in unchanged db db' (turns_of e) (runs_of e);
  step_moved = λ id from change open_states db db' o h.
      elim (update_step_inv id from change db db' o h) [
        | inl e ↦ unchanged db db' (turns_of e) (runs_of e)
        | inr (s, found, allowed, e) ↦ unchanged db db' (turns_of e) (runs_of e)
      ];
  turn_added = λ id t db db' u known h held.
      let (new, free, e) = insert_turn_inv id t db db' u h in
      record {
        one = λ session.
            subst (λ m. count_active session m ≤ 1) (sym (turns_of e))
              (count_active-added session id t db.turns new free (held.one session));
        matched = written_turn id t db db' known (turns_of e) (runs_of e) held;
      };
  turn_settled = λ now id to ended db db' o h. elim (settle_row_inv now id to db db' o h) [
    | inl (missed, e) ↦ unchanged db db' (turns_of e) (runs_of e)
    | inr (t, found, live, row, e) ↦ λ held. record {
      one = λ session.
          subst (λ m. count_active session m ≤ 1) (sym (turns_of e))
            (omega (
              arith,
              count_active-settled session id t (settled_turn now to t) db.turns found ended,
              held.one session,
            ));
      matched =
          written_turn id (settled_turn now to t) db db' (held.matched id t found) (turns_of e)
            (runs_of e) held;
    }
  ];
  logged = λ now run turn step kind p db db' e h.
      let q = (append_event_inv now run turn step kind p db db' e h).1 in
      unchanged db db' (turns_of q) (runs_of q);
}

-- Whatever calls are made, and whichever of them fail, every turn carries the session of its run, and no
-- session has two active turns, if that was so before.
pub after-IsExclusive :
    (ops : List (ℕ × Op)) (db : Database) → IsExclusive db → IsExclusive (after ops db)
after-IsExclusive ops db h = after-IsKept KeepsExclusive session_law ops db h
