-- ===== src/Runtime/EventLog.antt =====
-- The event log of control-plane/internal/runtime/store.go: appendEventTx, ListEvents, EventsSince and
-- LastEventSeq.
use Prim.Native.Nat.{max}
use iterabase_mono.Common.{
  ℕ, zero, suc, ◌+◌, ◌≤◌, ◌<◌, String, ◌≡◌, refl, sym, ap, ◌∙◌, subst, inl, inr, Bool, true, false,
  ◌&&◌, List, [], ◌∷◌, ◌++◌, arith, eq_iff, length, ltb, leb, Bool-cases, ◌==ₛ◌,
}
use mathlib.Core.Path.{subst₂}
use iterabase_mono.Runtime.Rows.{Payload, Event, Database}
use iterabase_mono.Runtime.Statements.{max_seq}
use iterabase_mono.Runtime.Queries.{
  place, order_by, where_rows, events_since, list_events, last_event_seq,
}
use iterabase_mono.Runtime.Effects.{
  insert_run_inv, update_run_inv, insert_step_inv, update_step_inv, insert_turn_inv, settle_row_inv,
  append_event_inv,
}
use iterabase_mono.Runtime.Law.{Law, with_event}
use iterabase_mono.Runtime.Calls.{Op, after}
use iterabase_mono.Runtime.Preserved.{after-IsKept}

unfoldable pub of_run : String → List Event → List Event
of_run run es = where_rows (λ e. e.run_id ==ₛ run) es

-- Numbered one after the other, from `n`.
abbrev pub IsNumbered : ℕ → List Event → Type 0
IsNumbered n [] = Unit
IsNumbered n (e ∷ es) = (e.seq ≡ n) × IsNumbered (n + 1) es

-- The events of every run are numbered from 1, without a gap.
pub record IsGapless (db : Database) : Type 0 where
  pub numbered : (run : String) → IsNumbered 1 (of_run run db.events)

pub where_rows-append {ℓ} :
    {A : Type ℓ} (test : A → Bool) (xs ys : List A)
    → where_rows test (xs ++ ys) ≡ where_rows test xs ++ where_rows test ys
unfolding where_rows
where_rows-append test [] ys = refl
where_rows-append test (x ∷ xs) ys = elim (Bool-cases (test x)) [
  | inl holds ↦ rw holds (ap (λ l. x ∷ l) (where_rows-append test xs ys))
  | inr fails ↦ rw fails (where_rows-append test xs ys)
]

where_rows-both {ℓ} :
    {A : Type ℓ} (p q : A → Bool) (xs : List A)
    → where_rows (λ x. p x && q x) xs ≡ where_rows q (where_rows p xs)
unfolding where_rows
where_rows-both p q [] = refl
where_rows-both p q (x ∷ xs) = elim (Bool-cases (p x)) [
  | inl holds ↦ elim (Bool-cases (q x)) [
    | inl also ↦ rw (holds, also) (ap (λ l. x ∷ l) (where_rows-both p q xs))
    | inr fails ↦ rw (holds, fails) (where_rows-both p q xs)
  ]
  | inr fails ↦ rw fails (where_rows-both p q xs)
]

-- The number of the last of `k` events that are numbered from `n`.
abbrev last_number : ℕ → ℕ → ℕ
last_number n zero = 0
last_number n (suc k) = n + k

max-last_number : (n k : ℕ) → max n (last_number (n + 1) k) ≡ last_number n (suc k)
max-last_number n zero = omega arith
max-last_number n (suc k) = omega arith

max_seq-IsNumbered :
    (run : String) (n : ℕ) (es : List Event)
    → IsNumbered n (of_run run es)
    → max_seq run es ≡ last_number n (length (of_run run es))
unfolding max_seq of_run where_rows
max_seq-IsNumbered run n [] h = refl
max_seq-IsNumbered run n (e ∷ es) h = elim (Bool-cases (e.run_id ==ₛ run)) [
  | inl mine ↦
      let (first, rest) = rw mine at h in
      rw mine (
        ap (max e.seq) (max_seq-IsNumbered run (n + 1) es rest)
        ∙ ap (λ m. max m (last_number (n + 1) (length (of_run run es)))) first
        ∙ max-last_number n (length (of_run run es)))
  | inr other ↦ rw other (max_seq-IsNumbered run n es (rw other at h))
]

append-IsNumbered :
    (n : ℕ) (es : List Event) (e : Event)
    → IsNumbered n es
    → e.seq ≡ n + length es
    → IsNumbered n (es ++ e ∷ [])
append-IsNumbered n [] e h q = (omega (arith, q), tt)
append-IsNumbered n (x ∷ xs) e h q = (h.0, append-IsNumbered (n + 1) xs e h.1 (omega (arith, q)))

next-number : (k : ℕ) → last_number 1 k + 1 ≡ 1 + k
next-number zero = refl
next-number (suc k) = omega arith

append_assoc {ℓ} : {A : Type ℓ} (xs ys zs : List A) → (xs ++ ys) ++ zs ≡ xs ++ (ys ++ zs)
append_assoc [] ys zs = refl
append_assoc (x ∷ xs) ys zs = ap (λ l. x ∷ l) (append_assoc xs ys zs)

pub append_nil {ℓ} : {A : Type ℓ} (xs : List A) → xs ++ [] ≡ xs
append_nil [] = refl
append_nil (x ∷ xs) = ap (λ l. x ∷ l) (append_nil xs)

-- Appending an event to a log without gaps leaves none.
with_event-IsGapless :
    (now : ℕ) (run turn step kind : String) (p : Payload) (db : Database)
    → IsGapless db
    → IsGapless (with_event now run turn step kind p db)
unfolding of_run where_rows
with_event-IsGapless now run turn step kind p db h = record {
  numbered = λ other.
      subst (IsNumbered 1) (sym (where_rows-append _ db.events _))
        (elim (Bool-cases (run ==ₛ other)) [
          | inl same ↦
              let q = (eq_iff run other).0 same in
              let counted = max_seq-IsNumbered other 1 db.events (h.numbered other) in
              rw same (
                append-IsNumbered 1 (of_run other db.events) _ (h.numbered other) (
                  ap (λ x. max_seq x db.events + 1) q
                  ∙ ap (λ m. m + 1) counted
                  ∙ next-number (length (of_run other db.events))))
          | inr differs ↦
              rw differs (
                subst (IsNumbered 1) (sym (append_nil (of_run other db.events))) (h.numbered other))
        ]);
}

abbrev AddsTo : List Event → List Event → Type 0
AddsTo older newer = (more : List Event) × (newer ≡ older ++ more)

-- The log only grows at its end, and stays without gaps.
record IsExtended (db db' : Database) : Type 0 where
  added : AddsTo db.events db'.events
  gapless : IsGapless db → IsGapless db'

same_events : (db db' : Database) → db'.events ≡ db.events → IsExtended db db'
same_events db db' e = record {
  added = ([], e ∙ sym (append_nil db.events));
  gapless = λ h. record {
    numbered = λ run. subst (λ es. IsNumbered 1 (of_run run es)) (sym e) (h.numbered run);
  };
}

abbrev events_of : {d d' : Database} → d ≡ d' → d.events ≡ d'.events
events_of e = ap (λ (d : Database). d.events) e

log_law : Law IsExtended
log_law = record {
  same = λ db. same_events db db refl;
  trans = λ a b c p q.
      let (more, e) = p.added in
      let (more', e') = q.added in
      record {
        added = (more ++ more', e' ∙ ap (λ l. l ++ more') e ∙ append_assoc a.events more more');
        gapless = λ h. q.gapless (p.gapless h);
      };
  run_added = λ id r db db' u h. same_events db db' (events_of (insert_run_inv id r db db' u h).1);
  run_moved = λ id from change open_states same_session db db' o h.
      elim (update_run_inv id from change db db' o h) [
        | inl (missed, e) ↦ same_events db db' (events_of e)
        | inr (r, found, allowed, row, e) ↦ same_events db db' (events_of e)
      ];
  step_added =
      λ id s db db' u h. same_events db db' (events_of (insert_step_inv id s db db' u h).1);
  step_moved = λ id from change open_states db db' o h.
      elim (update_step_inv id from change db db' o h) [
        | inl e ↦ same_events db db' (events_of e)
        | inr (s, found, allowed, e) ↦ same_events db db' (events_of e)
      ];
  turn_added =
      λ id t db db' u known h. same_events db db' (events_of (insert_turn_inv id t db db' u h).2);
  turn_settled = λ now id to ended db db' o h. elim (settle_row_inv now id to db db' o h) [
    | inl (missed, e) ↦ same_events db db' (events_of e)
    | inr (t, found, live, row, e) ↦ same_events db db' (events_of e)
  ];
  logged = λ now run turn step kind p db db' e h.
      let (known, q) = append_event_inv now run turn step kind p db db' e h in
      subst (λ d. IsExtended db d) (sym q)
        (record { added = (_, refl); gapless = with_event-IsGapless now run turn step kind p db });
}

after-IsExtended : (ops : List (ℕ × Op)) (db : Database) → IsExtended db (after ops db)
after-IsExtended ops db = after-IsKept IsExtended log_law ops db

-- Whatever calls are made, and whichever of them fail, the events of every run stay numbered from 1 without
-- a gap.
pub after-IsGapless :
    (ops : List (ℕ × Op)) (db : Database) → IsGapless db → IsGapless (after ops db)
after-IsGapless ops db h = (after-IsExtended ops db).gapless h

-- In order already.
order_by-IsNumbered : (n : ℕ) (es : List Event) → IsNumbered n es → order_by (λ e. e.seq) es ≡ es
unfolding order_by place
order_by-IsNumbered n [] h = refl
order_by-IsNumbered n (e ∷ []) h = refl
order_by-IsNumbered n (e ∷ d ∷ es) h =
    let first : leb e.seq d.seq ≡ true = ground (arith, h.0, h.1.0) in
    rw (order_by-IsNumbered (n + 1) (d ∷ es) h.1) (rw first refl)

split-IsNumbered :
    (n : ℕ) (xs ys : List Event)
    → IsNumbered n (xs ++ ys)
    → IsNumbered n xs × IsNumbered (n + length xs) ys
split-IsNumbered n [] ys h = (tt, subst (λ k. IsNumbered k ys) (omega arith) h)
split-IsNumbered n (x ∷ xs) ys h =
    let (older, newer) = split-IsNumbered (n + 1) xs ys h.1 in
    ((h.0, older), subst (λ k. IsNumbered k ys) (omega arith) newer)

since_none :
    (a n : ℕ) (xs : List Event)
    → IsNumbered n xs
    → n + length xs ≤ a + 1
    → where_rows (λ e. ltb a e.seq) xs ≡ []
unfolding where_rows
since_none a n [] h le = refl
since_none a n (x ∷ xs) h le =
    let old : ltb a x.seq ≡ false = ground (arith, h.0, le) in
    rw old (since_none a (n + 1) xs h.1 (omega (arith, le)))

since_all :
    (a n : ℕ) (ys : List Event) → IsNumbered n ys → a < n → where_rows (λ e. ltb a e.seq) ys ≡ ys
unfolding where_rows
since_all a n [] h lt = refl
since_all a n (y ∷ ys) h lt =
    let new : ltb a y.seq ≡ true = ground (arith, h.0, lt) in
    rw new (ap (λ l. y ∷ l) (since_all a (n + 1) ys h.1 (omega (arith, lt))))

-- The events with a greater number than the last of the older ones are the newer ones.
since-append :
    (a : ℕ) (xs ys : List Event)
    → IsNumbered 1 (xs ++ ys)
    → a + 1 ≡ 1 + length xs
    → order_by (λ e. e.seq) (where_rows (λ e. ltb a e.seq) (xs ++ ys)) ≡ ys
since-append a xs ys h q =
    let (older, newer) = split-IsNumbered 1 xs ys h in
    ap (order_by (λ (e : Event). e.seq)) (
      where_rows-append _ xs ys
      ∙ ap (λ l. l ++ where_rows (λ e. ltb a e.seq) ys) (since_none a 1 xs older (omega (arith, q)))
      ∙ since_all a (1 + length xs) ys newer (omega (arith, q)))
    ∙ order_by-IsNumbered (1 + length xs) ys newer

list_events-of_run :
    (run : String) (db : Database) → IsGapless db → list_events run db ≡ of_run run db.events
unfolding list_events of_run
list_events-of_run run db h = order_by-IsNumbered 1 (of_run run db.events) (h.numbered run)

-- A reader that has read the events of a run up to its last number and later asks for the events since then
-- gets exactly the ones that it misses, in order, whatever calls were made in between.
pub events_since-resumes :
    (run : String) (ops : List (ℕ × Op)) (db : Database)
    → IsGapless db
    → list_events run (after ops db)
      ≡ list_events run db ++ events_since run (last_event_seq run db) (after ops db)
unfolding events_since last_event_seq of_run
events_since-resumes run ops db h =
    let (more, e) = (after-IsExtended ops db).added in
    let h' = after-IsGapless ops db h in
    let parts : of_run run (after ops db).events ≡ of_run run db.events ++ of_run run more =
      ap (of_run run) e ∙ where_rows-append _ db.events more in
    let last : max_seq run db.events + 1 ≡ 1 + length (of_run run db.events) =
      ap (λ m. m + 1) (max_seq-IsNumbered run 1 db.events (h.numbered run))
      ∙ next-number (length (of_run run db.events)) in
    let since : events_since run (max_seq run db.events) (after ops db) ≡ of_run run more =
      ap (order_by (λ (x : Event). x.seq)) (
        where_rows-both _ _ (after ops db).events
        ∙ ap (where_rows (λ x. ltb (max_seq run db.events) x.seq)) parts)
      ∙ since-append (max_seq run db.events) (of_run run db.events) (of_run run more)
          (subst (IsNumbered 1) parts (h'.numbered run)) last in
    list_events-of_run run (after ops db) h'
    ∙ parts
    ∙ sym (
        subst₂ (λ older newer. older ++ newer ≡ of_run run db.events ++ of_run run more)
          (sym (list_events-of_run run db h)) (sym since) refl)
