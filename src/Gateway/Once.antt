-- ===== src/Gateway/Once.antt =====
-- How often an invocation of control-plane/internal/gateway/service.go goes to a runner.
use mathlib.Core.Bool.{true≢false}
use mathlib.Core.Option.{none-ne-some}
use iterabase_mono.Common.{
  ℕ, zero, suc, ◌+◌, ◌≤◌, String, ◌≡◌, refl, sym, ap, ◌∙◌, subst, ◌⊎◌, inl, inr, Bool, true, false,
  ◌&&◌, Option, none, some, List, [], ◌∷◌, arith, Bool-cases, Option-cases, ltb,
}
use iterabase_mono.Common.Dict.{lookup}
use iterabase_mono.Common.Result.{Result, ok, ok-injective, Result-cases}
use iterabase_mono.Gateway.Ledger.{
  EffectClass, InvocationState, ToolVersion, InvocationKey, ErrorJson, Invocation, Ledger,
  LedgerError, get_invocation_by_key, begin_invocation, mark_running, finish_invocation, LedgerOp,
  apply_all, is_terminal_invocation, is_read_only,
}
use iterabase_mono.Gateway.Dispatching.{
  InvokeState, Answer, Report, success, failure, unspecified, no_runner, stream_lost,
  dispatch_error, reported, Config, World, Execution, Call, classify_ambiguous, finish_failed,
  finish_from_result, finish_answer, committed, establish_lease, dispatch_timeout,
  abort_after_lease_failure, can_retry, attempts_of, attempt_from, dispatch_with_retry,
  execute_inserted, execute_invocation, sent, is_lost,
}
use iterabase_mono.Gateway.Keys.{
  knows-fresh, same_key_self, knows, known_row, apply_all-KeepsKeys, begin_invocation_inv,
  finish_invocation-knows, mark_running-knows, renew_dispatch_lease-knows,
}

-- An execution that keeps the keys of the ledger and goes to a runner at most `n` times.
record IsWithin (n : ℕ) (l : Ledger) (x : Execution) : Type 0 where
  sends : x.sends ≤ n
  keys : (key : InvocationKey) → knows key l ≡ true → knows key x.ledger ≡ true

committed-IsWithin :
    (now : ℕ) (id : String) (state : InvocationState) (result : Option String) (refs : String)
    (error : Option ErrorJson) (answered : InvokeState) (shown : Option ErrorJson) (l : Ledger)
    → IsWithin 0 l (committed now id state result refs error answered shown l)
unfolding committed
committed-IsWithin now id state result refs error answered shown l =
    elim (Result-cases (finish_invocation now id state result refs error l)) [
      | inl (e, q) ↦ rw (q, committed) (record { sends = omega arith; keys = λ key known. known })
      | inr (l', q) ↦
          rw (q, committed)
            (record {
              sends = omega arith;
              keys = λ key known.
                  finish_invocation-knows now id state result refs error key l l' q known;
            })
    ]

classify_ambiguous-IsWithin :
    (now : ℕ) (id : String) (tv : ToolVersion) (reason : String) (l : Ledger)
    → IsWithin 0 l (classify_ambiguous now id tv reason l)
unfolding classify_ambiguous
classify_ambiguous-IsWithin now id tv reason l = elim (Bool-cases (is_read_only tv.effect_class)) [
  | inl reads ↦
      rw reads (committed-IsWithin now id InvocationState.failed none "[]" _ InvokeState.failed _ l)
  | inr writes ↦ rw writes (
      committed-IsWithin now id InvocationState.outcome_unknown none "[]" _
        InvokeState.outcome_unknown _ l)
]

sent-IsWithin : (n : ℕ) (l : Ledger) (x : Execution) → IsWithin n l x → IsWithin (1 + n) l (sent x)
sent-IsWithin n l x h = record { sends = omega (arith, h.sends); keys = h.keys }

finish_from_result-IsWithin :
    (w : World) (now : ℕ) (id : String) (tv : ToolVersion) (report : Report)
    (result refs error : String) (l : Ledger)
    → IsWithin 0 l (finish_from_result w now id tv report result refs error l)
unfolding finish_from_result
finish_from_result-IsWithin w now id tv success result refs error l =
    elim (Option-cases (w.result_fault result refs)) [
      | inr (reason, bad) ↦ rw (bad, finish_from_result) (classify_ambiguous-IsWithin now id tv _ l)
      | inl good ↦
          rw (good, finish_from_result)
            (committed-IsWithin now id _ _ refs _ InvokeState.succeeded _ l)
    ]
finish_from_result-IsWithin w now id tv failure result refs error l =
    committed-IsWithin now id _ _ refs _ InvokeState.failed _ l
finish_from_result-IsWithin w now id tv unspecified result refs error l =
    committed-IsWithin now id _ _ refs _ InvokeState.failed _ l

finish_answer-IsWithin :
    (c : Config) (w : World) (id : String) (tv : ToolVersion) (now : ℕ) (a : Answer) (l : Ledger)
    → IsWithin 1 l (finish_answer c w id tv now a l)
unfolding finish_answer finish_failed
finish_answer-IsWithin c w id tv now no_runner l =
    let h = classify_ambiguous-IsWithin now id tv "no runner available for dispatch" l in
    record { sends = omega (arith, h.sends); keys = h.keys }
finish_answer-IsWithin c w id tv now stream_lost l =
    sent-IsWithin 0 l _ (classify_ambiguous-IsWithin now id tv _ l)
finish_answer-IsWithin c w id tv now (dispatch_error message) l =
    sent-IsWithin 0 l _ (committed-IsWithin now id _ none "[]" _ InvokeState.failed _ l)
finish_answer-IsWithin c w id tv now (reported report result refs error) l =
    sent-IsWithin 0 l _ (finish_from_result-IsWithin w now id tv report result refs error l)

abbrev Keeps : Ledger → Ledger → Type 0
Keeps l l' = (key : InvocationKey) → knows key l ≡ true → knows key l' ≡ true

later-IsWithin :
    (n m : ℕ) (l l' : Ledger) (x : Execution)
    → n ≤ m
    → Keeps l l'
    → IsWithin n l' x
    → IsWithin m l x
later-IsWithin n m l l' x le keeps h = record {
  sends = omega (arith, le, h.sends);
  keys = λ key known. h.keys key (keeps key known);
}

establish_lease-knows :
    (c : Config) (now : ℕ) (id : String) (timeout : ℕ) (l l' : Ledger)
    → establish_lease c now id timeout l ≡ ok l'
    → Keeps l l'
unfolding establish_lease
establish_lease-knows c now id timeout l l' h key known =
    let lease = now + (timeout + c.dispatch_lease) in
    elim (Result-cases (mark_running now id "" lease c.instance_id l)) [
      | inl (e, q) ↦
          renew_dispatch_lease-knows id c.instance_id lease key l l' (rw (q, establish_lease) at h)
            known
      | inr (l1, q) ↦
          let e = ok-injective l1 l' (rw (q, establish_lease) at h) in
          ap (knows key) (sym e) ∙ mark_running-knows now id "" lease c.instance_id key l l1 q known
    ]

abort-IsWithin :
    (now : ℕ) (id : String) (tv : ToolVersion) (l : Ledger)
    → IsWithin 0 l (abort_after_lease_failure now id tv l)
unfolding abort_after_lease_failure
abort-IsWithin now id tv l = elim (Option-cases (lookup id l)) [
  | inl e ↦ rw (e, abort_after_lease_failure) (classify_ambiguous-IsWithin now id tv _ l)
  | inr (inv, e) ↦ elim (Bool-cases (is_terminal_invocation inv.state)) [
    | inl over ↦
        rw (e, abort_after_lease_failure, over)
          (record { sends = omega arith; keys = λ key known. known })
    | inr live ↦ rw (e, abort_after_lease_failure, live) (classify_ambiguous-IsWithin now id tv _ l)
  ]
]

attempt_from-IsWithin :
    (c : Config) (w : World) (id : String) (tv : ToolVersion) (left n : ℕ) (l : Ledger)
    → IsWithin left l (attempt_from c w id tv left n l)
unfolding attempt_from
attempt_from-IsWithin c w id tv zero n l = classify_ambiguous-IsWithin (w.clock n) id tv _ l
attempt_from-IsWithin c w id tv (suc left) n l =
    let l0 = apply_all (w.before_lease n) l in
    let kept0 : Keeps l l0 = λ key known. apply_all-KeepsKeys (w.before_lease n) key l known in
    elim (Result-cases (establish_lease c (w.clock n) id (dispatch_timeout c tv) l0)) [
      | inl (e, q) ↦
          rw (q, attempt_from)
            (later-IsWithin 0 (suc left) l l0 _ (omega arith) kept0
              (abort-IsWithin (w.clock n) id tv l0))
      | inr (l1, q) ↦
          let l2 = apply_all (w.before_result n) l1 in
          let kept2 : Keeps l l2 = λ key known. apply_all-KeepsKeys (w.before_result n) key l1 (
            establish_lease-knows c (w.clock n) id (dispatch_timeout c tv) l0 l1 q key
              (kept0 key known)) in
          elim (Bool-cases (is_lost c w id tv (w.answers n) && can_retry tv id && ltb 0 left)) [
            | inl again ↦
                rw (q, attempt_from, again)
                  (later-IsWithin (1 + left) (suc left) l l2 _ (omega arith) kept2
                    (sent-IsWithin left l2 _ (attempt_from-IsWithin c w id tv left (n + 1) l2)))
            | inr over ↦
                rw (q, attempt_from, over)
                  (later-IsWithin 1 (suc left) l l2 _ (omega arith) kept2
                    (finish_answer-IsWithin c w id tv (w.clock n) (w.answers n) l2))
          ]
    ]

-- A call that finds the key in the ledger goes to no runner; any other one leaves the key there, or goes to none.
record IsOnce (n : ℕ) (key : InvocationKey) (l : Ledger) (x : Execution) : Type 0 where
  first : x.sends ≤ n
  again : knows key l ≡ true → x.sends ≡ 0
  kept : Keeps l x.ledger
  left_key : (knows key x.ledger ≡ true) ⊎ (x.sends ≡ 0)

within-IsOnce :
    (n : ℕ) (key : InvocationKey) (l l1 : Ledger) (x : Execution)
    → knows key l ≡ false
    → knows key l1 ≡ true
    → Keeps l l1
    → IsWithin n l1 x
    → IsOnce n key l x
within-IsOnce n key l l1 x new known keeps h = record {
  first = h.sends;
  again = λ q. absurd (true≢false (sym q ∙ new));
  kept = λ k q. h.keys k (keeps k q);
  left_key = inl (h.keys key known);
}

unknown :
    (key : InvocationKey) (l : Ledger) → get_invocation_by_key key l ≡ none → knows key l ≡ false
unknown key l e = elim (Bool-cases (knows key l)) [
  | inl known ↦ let (row, f) = known_row key l known in absurd (none-ne-some row (sym e ∙ f))
  | inr h ↦ h
]

execute_inserted-IsWithin :
    (c : Config) (call : Call) (id : String) (l : Ledger)
    → IsWithin (attempts_of c call.tv id) l (execute_inserted c call id l)
unfolding execute_inserted finish_failed dispatch_with_retry
execute_inserted-IsWithin c call id l = elim (Bool-cases call.available) [
  | inr missing ↦ rw missing (
      later-IsWithin 0 _ l l _ (omega arith) (λ k known. known)
        (committed-IsWithin call.now id InvocationState.failed none "[]" _ InvokeState.failed _ l))
  | inl there ↦ elim (Option-cases call.credentials) [
    | inr (message, e) ↦
        rw (there, e, execute_inserted)
          (later-IsWithin 0 _ l l _ (omega arith) (λ k known. known)
            (committed-IsWithin call.now id InvocationState.failed none "[]" _ InvokeState.failed _
              l))
    | inl e ↦
        rw (there, e, execute_inserted)
          (attempt_from-IsWithin c call.world id call.tv (attempts_of c call.tv id) 0 l)
  ]
]

execute_invocation-IsOnce :
    (c : Config) (key : InvocationKey) (call : Call) (l : Ledger)
    → IsOnce (attempts_of c call.tv call.new_id) key l (execute_invocation c key call l)
unfolding execute_invocation
execute_invocation-IsOnce c key call l =
    let lease = call.now + (dispatch_timeout c call.tv + c.dispatch_lease) in
    let start : Result LedgerError ((String × Invocation) × Bool × Ledger) =
      begin_invocation call.now call.new_id key call.tv (some call.pool) call.request lease
        c.instance_id l in
    elim (Result-cases start) [
      | inl (e, q) ↦
          rw (q, execute_invocation)
            (record {
              first = omega arith;
              again = λ known. refl;
              kept = λ k known. known;
              left_key = inr refl;
            })
      | inr ((row, inserted, l1), q) ↦
          elim (begin_invocation_inv call.now call.new_id key call.tv (some call.pool) call.request
            lease c.instance_id l l1 row inserted q) [
              | inl (old, same, found) ↦
                  rw (q, execute_invocation, old)
                    (record {
                      first = omega arith;
                      again = λ known. refl;
                      kept = λ k known. ap (knows k) same ∙ known;
                      left_key = inr refl;
                    })
              | inr (new, missed, fresh, made, e) ↦
                  let within = execute_inserted-IsWithin c call row.0 l1 in
                  let id : row.0 ≡ call.new_id = ap (λ (p : String × Invocation). p.0) made in
                  let added =
                    λ (k : InvocationKey). ap (knows k) e ∙ knows-fresh k call.new_id _ l fresh in
                  rw (q, execute_invocation, new)
                    (within-IsOnce (attempts_of c call.tv call.new_id) key l l1 _
                      (unknown key l missed) (added key ∙ ground (arith, same_key_self key))
                      (λ k known. added k ∙ ground (arith, known))
                      (subst
                        (λ i.
                          IsWithin (attempts_of c call.tv i) l1 (execute_inserted c call row.0 l1))
                        id within))
            ]
    ]

-- The calls of InvokeTool that carry one key, with what others did to the ledger before each.
unfoldable pub total_sends : Config → InvocationKey → List (List LedgerOp × Call) → Ledger → ℕ
total_sends c key [] l = 0
total_sends c key ((ops, call) ∷ calls) l =
    let x = execute_invocation c key call (apply_all ops l) in
    x.sends + total_sends c key calls x.ledger

abbrev pub AreWrites : List (List LedgerOp × Call) → Type 0
AreWrites [] = Unit
AreWrites ((ops, call) ∷ calls) =
    (call.tv.effect_class ≡ EffectClass.non_idempotent_write) × AreWrites calls

attempts_of-write :
    (c : Config) (tv : ToolVersion) (id : String)
    → tv.effect_class ≡ EffectClass.non_idempotent_write
    → attempts_of c tv id ≡ 1
unfolding attempts_of can_retry
attempts_of-write c tv id h = rw h refl

never_again :
    (c : Config) (key : InvocationKey) (calls : List (List LedgerOp × Call)) (l : Ledger)
    → knows key l ≡ true
    → total_sends c key calls l ≡ 0
unfolding total_sends
never_again c key [] l known = refl
never_again c key ((ops, call) ∷ calls) l known =
    let known' = apply_all-KeepsKeys ops key l known in
    let once = execute_invocation-IsOnce c key call (apply_all ops l) in
    omega (arith, once.again known', never_again c key calls _ (once.kept key known'))

-- However often a non-idempotent write is invoked with the same key, whatever the runners answer, and whatever
-- other calls and the recovery sweep do to the ledger between and during the calls, it goes to a runner at
-- most once.
pub at_most_once :
    (c : Config) (key : InvocationKey) (calls : List (List LedgerOp × Call)) (l : Ledger)
    → AreWrites calls
    → total_sends c key calls l ≤ 1
unfolding total_sends
at_most_once c key [] l writes = omega arith
at_most_once c key ((ops, call) ∷ calls) l (write, writes) =
    let once = execute_invocation-IsOnce c key call (apply_all ops l) in
    let x = execute_invocation c key call (apply_all ops l) in
    let limit = attempts_of-write c call.tv call.new_id write in
    elim once.left_key [
      | inl known ↦ omega (arith, once.first, limit, never_again c key calls x.ledger known)
      | inr none_sent ↦ omega (arith, none_sent, at_most_once c key calls x.ledger writes)
    ]
