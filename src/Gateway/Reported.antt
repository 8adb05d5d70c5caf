-- ===== src/Gateway/Reported.antt =====
-- What a response of InvokeTool in control-plane/internal/gateway/service.go says of the ledger.
use mathlib.Core.Option.{none-ne-some, some-injective}
use iterabase_mono.Common.{
  ℕ, zero, suc, ◌+◌, String, ◌≡◌, refl, sym, ap, ◌∙◌, subst, inl, inr, Bool, true, ◌&&◌, Option,
  none, some, [], ◌∷◌, arith, eq_iff, Bool-cases, Option-cases, ltb, ◌==ₛ◌,
}
use iterabase_mono.Common.Dict.{lookup, lookup-insert, IsMap}
use iterabase_mono.Common.Result.{Result, ok, ok-injective, Result-cases}
use iterabase_mono.Gateway.Ledger.{
  InvocationState, ToolVersion, InvocationKey, ErrorJson, Invocation, Ledger, LedgerError, same_key,
  get_invocation_by_key, begin_invocation, finish_invocation, finished_invocation, apply_all,
  is_terminal_invocation, is_read_only,
}
use iterabase_mono.Gateway.Dispatching.{
  InvokeState, InvokeResponse, Answer, Report, success, failure, unspecified, no_runner,
  stream_lost, dispatch_error, reported, Config, World, Execution, Call, response_state,
  invocation_to_response, report_state, classify_ambiguous, finish_failed, finish_from_result,
  finish_answer, committed, establish_lease, dispatch_timeout, abort_after_lease_failure, can_retry,
  attempts_of, attempt_from, dispatch_with_retry, execute_inserted, execute_invocation, sent,
  is_lost,
}
use iterabase_mono.Gateway.Keys.{refused, begin_invocation_inv, finish_invocation_inv}

-- The row of the ledger that a response is about has the state that the response reports.
abbrev pub HasRow : InvokeResponse → Ledger → Type 0
HasRow r l =
    (inv : Invocation) × (lookup r.invocation_id l ≡ some inv)
    × (response_state inv.state ≡ r.state)

pub record IsTrue (x : Execution) : Type 0 where
  pub row : (r : InvokeResponse) → x.response ≡ ok r → HasRow r x.ledger

committed-IsTrue :
    (now : ℕ) (id : String) (state : InvocationState) (result : Option String) (refs : String)
    (error : Option ErrorJson) (answered : InvokeState) (shown : Option ErrorJson) (l : Ledger)
    → response_state state ≡ answered
    → IsTrue (committed now id state result refs error answered shown l)
unfolding committed
committed-IsTrue now id state result refs error answered shown l says =
    elim (Result-cases (finish_invocation now id state result refs error l)) [
      | inl (e, q) ↦ rw (q, committed) (record { row = λ r h. absurd (refused r e h) })
      | inr (l', q) ↦
          rw (q, committed)
            (record {
              row = λ r h.
                  let (inv, found, was, e) =
                    finish_invocation_inv now id state result refs error l l' q in
                  let given : InvokeResponse = record {
                    invocation_id = id;
                    state = answered;
                    error = shown;
                  } in
                  let same : given ≡ r = ok-injective given r h in
                  subst (λ x. HasRow x l') same
                    (
                      finished_invocation now state result refs error inv,
                      ap (lookup id) e
                          ∙ lookup-insert id id
                              (finished_invocation now state result refs error inv) l
                          ∙ ground (arith, eq_iff id id),
                      says,
                    );
            })
    ]

answered-IsTrue :
    (id : String) (inv : Invocation) (l : Ledger)
    → lookup id l ≡ some inv
    → IsTrue (record { response = ok (invocation_to_response id inv); ledger = l; sends = 0 })
unfolding invocation_to_response
answered-IsTrue id inv l found = record {
  row = λ r h.
      subst (λ x. HasRow x l) (ok-injective (invocation_to_response id inv) r h) (inv, found, refl);
}

sent-IsTrue : (x : Execution) → IsTrue x → IsTrue (sent x)
sent-IsTrue x h = record { row = h.row }

classify_ambiguous-IsTrue :
    (now : ℕ) (id : String) (tv : ToolVersion) (reason : String) (l : Ledger)
    → IsTrue (classify_ambiguous now id tv reason l)
unfolding classify_ambiguous response_state
classify_ambiguous-IsTrue now id tv reason l = elim (Bool-cases (is_read_only tv.effect_class)) [
  | inl reads ↦
      rw reads
        (committed-IsTrue now id InvocationState.failed none "[]" _ InvokeState.failed _ l refl)
  | inr writes ↦ rw writes (
      committed-IsTrue now id InvocationState.outcome_unknown none "[]" _
        InvokeState.outcome_unknown _ l refl)
]

finish_from_result-IsTrue :
    (w : World) (now : ℕ) (id : String) (tv : ToolVersion) (report : Report)
    (result refs error : String) (l : Ledger)
    → IsTrue (finish_from_result w now id tv report result refs error l)
unfolding finish_from_result report_state response_state
finish_from_result-IsTrue w now id tv success result refs error l =
    elim (Option-cases (w.result_fault result refs)) [
      | inr (reason, bad) ↦ rw (bad, finish_from_result) (classify_ambiguous-IsTrue now id tv _ l)
      | inl good ↦
          rw (good, finish_from_result)
            (committed-IsTrue now id InvocationState.succeeded _ refs _ InvokeState.succeeded _ l
              refl)
    ]
finish_from_result-IsTrue w now id tv failure result refs error l =
    committed-IsTrue now id InvocationState.failed _ refs _ InvokeState.failed _ l refl
finish_from_result-IsTrue w now id tv unspecified result refs error l =
    committed-IsTrue now id InvocationState.failed _ refs _ InvokeState.failed _ l refl

finish_answer-IsTrue :
    (c : Config) (w : World) (id : String) (tv : ToolVersion) (now : ℕ) (a : Answer) (l : Ledger)
    → IsTrue (finish_answer c w id tv now a l)
unfolding finish_answer finish_failed response_state
finish_answer-IsTrue c w id tv now no_runner l = classify_ambiguous-IsTrue now id tv _ l
finish_answer-IsTrue c w id tv now stream_lost l =
    sent-IsTrue _ (classify_ambiguous-IsTrue now id tv _ l)
finish_answer-IsTrue c w id tv now (dispatch_error message) l =
    sent-IsTrue _
      (committed-IsTrue now id InvocationState.failed none "[]" _ InvokeState.failed _ l refl)
finish_answer-IsTrue c w id tv now (reported report result refs error) l =
    sent-IsTrue _ (finish_from_result-IsTrue w now id tv report result refs error l)

abort-IsTrue :
    (now : ℕ) (id : String) (tv : ToolVersion) (l : Ledger)
    → IsTrue (abort_after_lease_failure now id tv l)
unfolding abort_after_lease_failure
abort-IsTrue now id tv l = elim (Option-cases (lookup id l)) [
  | inl e ↦ rw (e, abort_after_lease_failure) (classify_ambiguous-IsTrue now id tv _ l)
  | inr (inv, e) ↦ elim (Bool-cases (is_terminal_invocation inv.state)) [
    | inl over ↦ rw (e, abort_after_lease_failure, over) (answered-IsTrue id inv l e)
    | inr live ↦ rw (e, abort_after_lease_failure, live) (classify_ambiguous-IsTrue now id tv _ l)
  ]
]

attempt_from-IsTrue :
    (c : Config) (w : World) (id : String) (tv : ToolVersion) (left n : ℕ) (l : Ledger)
    → IsTrue (attempt_from c w id tv left n l)
unfolding attempt_from
attempt_from-IsTrue c w id tv zero n l = classify_ambiguous-IsTrue (w.clock n) id tv _ l
attempt_from-IsTrue c w id tv (suc left) n l =
    let l0 = apply_all (w.before_lease n) l in
    elim (Result-cases (establish_lease c (w.clock n) id (dispatch_timeout c tv) l0)) [
      | inl (e, q) ↦ rw (q, attempt_from) (abort-IsTrue (w.clock n) id tv l0)
      | inr (l1, q) ↦
          let l2 = apply_all (w.before_result n) l1 in
          elim (Bool-cases (is_lost c w id tv (w.answers n) && can_retry tv id && ltb 0 left)) [
            | inl again ↦
                rw (q, attempt_from, again)
                  (sent-IsTrue _ (attempt_from-IsTrue c w id tv left (n + 1) l2))
            | inr over ↦
                rw (q, attempt_from, over)
                  (finish_answer-IsTrue c w id tv (w.clock n) (w.answers n) l2)
          ]
    ]

execute_inserted-IsTrue :
    (c : Config) (call : Call) (id : String) (l : Ledger) → IsTrue (execute_inserted c call id l)
unfolding execute_inserted finish_failed dispatch_with_retry response_state
execute_inserted-IsTrue c call id l = elim (Bool-cases call.available) [
  | inr missing ↦
      rw missing (
        committed-IsTrue call.now id InvocationState.failed none "[]" _ InvokeState.failed _ l refl)
  | inl there ↦ elim (Option-cases call.credentials) [
    | inr (message, e) ↦
        rw (there, e, execute_inserted)
          (committed-IsTrue call.now id InvocationState.failed none "[]" _ InvokeState.failed _ l
            refl)
    | inl e ↦
        rw (there, e, execute_inserted)
          (attempt_from-IsTrue c call.world id call.tv (attempts_of c call.tv id) 0 l)
  ]
]

-- The row with a key is found under its id: an id has one row.
lookup-get_invocation_by_key :
    (key : InvocationKey) (l : Ledger) (e : String × Invocation)
    → IsMap l
    → get_invocation_by_key key l ≡ some e
    → lookup e.0 l ≡ some e.1
unfolding get_invocation_by_key lookup
lookup-get_invocation_by_key key [] e h q = absurd (none-ne-some e q)
lookup-get_invocation_by_key key ((id, inv) ∷ l) e h q = elim (Bool-cases (same_key inv.key key)) [
  | inl same ↦
      let p : (id, inv) ≡ e = some-injective (id, inv) e (rw same at q) in
      let mine : id ==ₛ id ≡ true = (eq_iff id id).1 refl in
      subst (λ (x : String × Invocation). lookup x.0 ((id, inv) ∷ l) ≡ some x.1) p (rw mine refl)
  | inr differs ↦
      let later = lookup-get_invocation_by_key key l e h.1 (rw differs at q) in
      elim (Bool-cases (id ==ₛ e.0)) [
        | inl same ↦
            absurd
              (none-ne-some e.1 (sym h.0 ∙ ap (λ k. lookup k l) ((eq_iff id e.0).0 same) ∙ later))
        | inr other ↦ rw other later
      ]
]

-- A response never reports a state that the ledger has not committed: whatever the runners answer, and whatever
-- others do to the ledger meanwhile, the row that the response names is there and has the state that it
-- reports.
pub execute_invocation-IsTrue :
    (c : Config) (key : InvocationKey) (call : Call) (l : Ledger)
    → IsMap l
    → IsTrue (execute_invocation c key call l)
unfolding execute_invocation
execute_invocation-IsTrue c key call l h =
    let lease = call.now + (dispatch_timeout c call.tv + c.dispatch_lease) in
    let start : Result LedgerError ((String × Invocation) × Bool × Ledger) =
      begin_invocation call.now call.new_id key call.tv (some call.pool) call.request lease
        c.instance_id l in
    elim (Result-cases start) [
      | inl (e, q) ↦ rw (q, execute_invocation) (record { row = λ r f. absurd (refused r e f) })
      | inr ((row, inserted, l1), q) ↦
          elim (begin_invocation_inv call.now call.new_id key call.tv (some call.pool) call.request
            lease c.instance_id l l1 row inserted q) [
              | inl (old, same, found) ↦
                  rw (q, execute_invocation, old)
                    (answered-IsTrue row.0 row.1 l1
                      (ap (lookup row.0) same ∙ lookup-get_invocation_by_key key l row h found))
              | inr (new, missed, fresh, made, e) ↦
                  rw (q, execute_invocation, new) (execute_inserted-IsTrue c call row.0 l1)
            ]
    ]
