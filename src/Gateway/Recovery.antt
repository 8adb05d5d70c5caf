-- ===== src/Gateway/Recovery.antt =====
-- The recovery sweep of control-plane/internal/gateway/store.go, and the rows that are terminal.
use mathlib.Core.Bool.{true≢false}
use mathlib.Core.Option.{some-injective}
use iterabase_mono.Common.{
  ℕ, String, ◌≡◌, refl, sym, ap, ◌∙◌, subst, inl, inr, Bool, true, false, Option, none, some, List,
  [], ◌∷◌, eq_iff, Bool-cases, ◌==ₛ◌, if◌then◌else◌,
}
use iterabase_mono.Common.Dict.{lookup, insert, lookup-insert, has_key}
use iterabase_mono.Common.Result.{Result, ok, err, Result-cases}
use iterabase_mono.Gateway.Ledger.{
  InvocationState, Invocation, Ledger, LedgerError, begin_invocation, update_row, is_open,
  is_dispatching, renew_dispatch_lease, mark_running, finish_invocation, finished_invocation,
  is_terminal_invocation, is_orphan, orphan_read, orphan_write, failed_orphan, unknown_orphan,
  update_where, LedgerOp, begin, renew, recover_read_only, recover_writes, mark, finish,
  sweep_reads, sweep_writes, kept_or, apply, apply_all,
}
use iterabase_mono.Gateway.Keys.{update_row_inv, finish_invocation_inv, begin_invocation_inv}

abbrev pub map_row : (Invocation → Invocation) → Option Invocation → Option Invocation
map_row f none = none
map_row f (some inv) = some (f inv)

lookup-update_where :
    (id : String) (test : Invocation → Bool) (change : Invocation → Invocation) (l : Ledger)
    → lookup id (update_where test change l)
      ≡ map_row (λ inv. if test inv then change inv else inv) (lookup id l)
unfolding lookup update_where
lookup-update_where id test change [] = refl
lookup-update_where id test change ((other, inv) ∷ l) = elim (Bool-cases (other ==ₛ id)) [
  | inl same ↦ rw same refl
  | inr differs ↦ rw differs (lookup-update_where id test change l)
]

-- What each update makes of a row: where its lease has expired, a read has failed and a write may have happened.
unfoldable pub read_recovered : ℕ → Invocation → Invocation
read_recovered now inv = if orphan_read now inv then failed_orphan now inv else inv

unfoldable pub write_recovered : ℕ → Invocation → Invocation
write_recovered now inv = if orphan_write now inv then unknown_orphan now inv else inv

abbrev KeepsRow : String → Invocation → Ledger → Ledger → Type 0
KeepsRow id inv l l' = lookup id l ≡ some inv → lookup id l' ≡ some inv

terminal-not_open :
    (s : InvocationState)
    → is_terminal_invocation s ≡ true
    → (is_open s ≡ false) × (is_dispatching s ≡ false)
unfolding is_terminal_invocation is_open
terminal-not_open InvocationState.dispatching h = cc
terminal-not_open InvocationState.running h = cc
terminal-not_open InvocationState.succeeded h = (refl, refl)
terminal-not_open InvocationState.failed h = (refl, refl)
terminal-not_open InvocationState.outcome_unknown h = (refl, refl)

written-KeepsRow :
    (id other : String) (test : Invocation → Bool) (change : Invocation → Invocation)
    (inv old : Invocation) (l l' : Ledger)
    → test inv ≡ false
    → lookup other l ≡ some old
    → test old ≡ true
    → l' ≡ insert other (change old) l
    → KeepsRow id inv l l'
written-KeepsRow id other test change inv old l l' closed was allowed e found =
    elim (Bool-cases (other ==ₛ id)) [
      | inl same ↦
          let here : lookup id l ≡ some old =
            ap (λ k. lookup k l) (sym ((eq_iff other id).0 same)) ∙ was in
          let q : old ≡ inv = some-injective old inv (sym here ∙ found) in
          absurd (true≢false (sym allowed ∙ ap test q ∙ closed))
      | inr differs ↦ ap (lookup id) e ∙ lookup-insert other id (change old) l ∙ rw differs found
    ]

updated-KeepsRow :
    (id other : String) (test : Invocation → Bool) (change : Invocation → Invocation)
    (inv : Invocation) (l l' : Ledger)
    → test inv ≡ false
    → update_row other test change l ≡ ok l'
    → KeepsRow id inv l l'
updated-KeepsRow id other test change inv l l' closed h =
    let (old, was, allowed, e) = update_row_inv other test change l l' h in
    written-KeepsRow id other test change inv old l l' closed was allowed e

fresh-differs :
    (new id : String) (inv : Invocation) (l : Ledger)
    → has_key l new ≡ false
    → lookup id l ≡ some inv
    → new ==ₛ id ≡ false
fresh-differs new id inv l fresh found = elim (Bool-cases (new ==ₛ id)) [
  | inl same ↦
      let gone : has_key l id ≡ false =
        subst (λ k. has_key l k ≡ false) ((eq_iff new id).0 same) fresh in
      absurd (true≢false (rw found at gone))
  | inr differs ↦ differs
]

closed-reads :
    (now : ℕ) (inv : Invocation) → is_open inv.state ≡ false → read_recovered now inv ≡ inv
unfolding read_recovered is_orphan
closed-reads now inv closed = rw closed refl

closed-writes :
    (now : ℕ) (inv : Invocation) → is_open inv.state ≡ false → write_recovered now inv ≡ inv
unfolding write_recovered is_orphan
closed-writes now inv closed = rw closed refl

lookup-recover_read_only :
    (now : ℕ) (id : String) (l : Ledger)
    → lookup id (recover_read_only now l).1 ≡ map_row (read_recovered now) (lookup id l)
unfolding recover_read_only read_recovered
lookup-recover_read_only now id l = lookup-update_where id (orphan_read now) (failed_orphan now) l

lookup-recover_writes :
    (now : ℕ) (id : String) (l : Ledger)
    → lookup id (recover_writes now l).1 ≡ map_row (write_recovered now) (lookup id l)
unfolding recover_writes write_recovered
lookup-recover_writes now id l = lookup-update_where id (orphan_write now) (unknown_orphan now) l

kept_or-KeepsRow :
    (id : String) (inv : Invocation) (l : Ledger) (r : Result LedgerError Ledger)
    → ((l' : Ledger) → r ≡ ok l' → KeepsRow id inv l l')
    → KeepsRow id inv l (kept_or l r)
kept_or-KeepsRow id inv l (err e) k = λ found. found
kept_or-KeepsRow id inv l (ok l') k = k l' refl

apply-KeepsRow :
    (op : LedgerOp) (id : String) (inv : Invocation) (l : Ledger)
    → is_terminal_invocation inv.state ≡ true
    → KeepsRow id inv l (apply op l)
unfolding apply renew_dispatch_lease mark_running
apply-KeepsRow (begin now new key tv pool request lease instance_id) id inv l over found =
    elim (Result-cases (begin_invocation now new key tv pool request lease instance_id l)) [
      | inl (e, q) ↦ rw (q, apply) found
      | inr ((row, inserted, l'), q) ↦
          rw (q, apply)
            (elim (begin_invocation_inv now new key tv pool request lease instance_id l l' row
              inserted q) [
                | inl (old, e, there) ↦ ap (lookup id) e ∙ found
                | inr (added, missed, fresh, made, e) ↦
                    ap (lookup id) e
                    ∙ lookup-insert new id _ l
                    ∙ rw (fresh-differs new id inv l fresh found) found
              ])
    ]
apply-KeepsRow (renew other instance_id lease) id inv l over found =
    kept_or-KeepsRow id inv l (renew_dispatch_lease other instance_id lease l)
      (λ l' h.
        updated-KeepsRow id other (λ x. is_open x.state)
          (λ x. record x {
            dispatch_lease_expires_at = some lease;
            gateway_instance_id = some instance_id;
          })
          inv l l' (terminal-not_open inv.state over).0 h)
      found
apply-KeepsRow (mark now other runner lease instance_id) id inv l over found =
    kept_or-KeepsRow id inv l (mark_running now other runner lease instance_id l)
      (λ l' h.
        updated-KeepsRow id other (λ x. is_dispatching x.state)
          (λ x. record x {
            state = InvocationState.running;
            running_at = some now;
            runner_id = some runner;
            dispatch_lease_expires_at = some lease;
            gateway_instance_id = some instance_id;
          })
          inv l l' (terminal-not_open inv.state over).1 h)
      found
apply-KeepsRow (finish now other state result refs error) id inv l over found =
    kept_or-KeepsRow id inv l (finish_invocation now other state result refs error l)
      (λ l' h.
        let (old, was, open_row, e) =
          finish_invocation_inv now other state result refs error l l' h in
        written-KeepsRow id other (λ x. is_open x.state)
          (finished_invocation now state result refs error) inv old l l'
          (terminal-not_open inv.state over).0 was open_row e)
      found
apply-KeepsRow (sweep_reads now) id inv l over found =
    lookup-recover_read_only now id l
    ∙ ap (map_row (read_recovered now)) found
    ∙ ap some (closed-reads now inv (terminal-not_open inv.state over).0)
apply-KeepsRow (sweep_writes now) id inv l over found =
    lookup-recover_writes now id l
    ∙ ap (map_row (write_recovered now)) found
    ∙ ap some (closed-writes now inv (terminal-not_open inv.state over).0)

-- Once an invocation has a terminal state, its row stays as it is, whatever is done to the ledger: no lease,
-- dispatch, result or sweep changes a committed outcome.
pub apply_all-KeepsRow :
    (ops : List LedgerOp) (id : String) (inv : Invocation) (l : Ledger)
    → is_terminal_invocation inv.state ≡ true
    → lookup id l ≡ some inv
    → lookup id (apply_all ops l) ≡ some inv
unfolding apply_all
apply_all-KeepsRow [] id inv l over found = found
apply_all-KeepsRow (op ∷ ops) id inv l over found =
    apply_all-KeepsRow ops id inv (apply op l) over (apply-KeepsRow op id inv l over found)

abbrev pub row_is : (Invocation → Bool) → Option Invocation → Bool
row_is test none = false
row_is test (some inv) = test inv
