-- ===== src/Gateway/Dispatching.antt =====
-- How an invocation is executed, in control-plane/internal/gateway/service.go: InvokeTool from its ledger
-- row on, dispatchWithRetry, classifyAmbiguous, finishFailed, finishFromResult, renewDispatchLease and
-- abortAfterLeaseFailure. What the runner pool answers, what other calls and the recovery sweep do to the
-- ledger in between, the clock, and what the checks of a runner's result (its references, its size, its
-- JSON) find wrong are arguments. The reason of an aborted dispatch is kept without the text of its cause.
use iterabase_mono.Common.{
  ℕ, zero, suc, ◌+◌, String, Bool, true, false, not, ◌&&◌, ◌||◌, Option, none, some, List, ltb,
  ◌==ₛ◌, if◌then◌else◌,
}
use iterabase_mono.Common.Dict.{lookup}
use iterabase_mono.Common.Result.{Result, ok, err}
use iterabase_mono.Gateway.Ledger.{
  EffectClass, InvocationState, ToolVersion, InvocationKey, ErrorJson, sent_detail, detail,
  Invocation, Request, Ledger, LedgerError, LedgerOp, apply_all, nullable_json_bytes,
  begin_invocation, renew_dispatch_lease, mark_running, finish_invocation, is_terminal_invocation,
  is_read_only,
}

-- The states of a response.
pub data InvokeState : Type 0 where
  succeeded failed outcome_unknown in_progress : InvokeState

-- The result and the error of the row are opaque here.
pub record InvokeResponse : Type 0 where
  pub invocation_id : String
  pub state : InvokeState
  pub error : Option ErrorJson

-- The states of an InvokeResult, and the state that each is taken for. An InvokeError is a failure whose list
-- of references is nil.
pub data Report : Type 0 where
  success failure unspecified : Report

unfoldable pub report_state : Report → InvocationState
report_state success = InvocationState.succeeded
report_state failure = InvocationState.failed
report_state unspecified = InvocationState.failed

-- What dispatchToRunner returns.
pub data Answer : Type 0 where
  no_runner stream_lost : Answer
  dispatch_error : String → Answer
  reported : Report → String → String → String → Answer

-- The settings that an execution reads.
pub record Config : Type 0 where
  pub retry_max_attempts : ℕ
  pub dispatch_lease : ℕ
  pub default_timeout : ℕ
  pub instance_id : String

-- What the attempts of one invocation meet: the time, the answer, and what others did to the ledger before the
-- lease and before the result.
pub record World : Type 0 where
  pub clock : ℕ → ℕ
  pub answers : ℕ → Answer
  pub before_lease : ℕ → List LedgerOp
  pub before_result : ℕ → List LedgerOp
  pub result_fault : String → String → Option String

-- The response or the error, the ledger, and how often the invocation may have gone to a runner: a lost stream
-- counts, since its send may have arrived.
pub record Execution : Type 0 where
  pub response : Result LedgerError InvokeResponse
  pub ledger : Ledger
  pub sends : ℕ

unfoldable pub response_state : InvocationState → InvokeState
response_state InvocationState.succeeded = InvokeState.succeeded
response_state InvocationState.failed = InvokeState.failed
response_state InvocationState.outcome_unknown = InvokeState.outcome_unknown
response_state _ = InvokeState.in_progress

-- Only a failure or an unknown outcome shows the row's error.
abbrev pub shown_error : InvocationState → Option ErrorJson → Option ErrorJson
shown_error InvocationState.failed error = error
shown_error InvocationState.outcome_unknown error = error
shown_error _ error = none

unfoldable pub invocation_to_response : String → Invocation → InvokeResponse
invocation_to_response id inv = record {
  invocation_id = id;
  state = response_state inv.state;
  error = shown_error inv.state inv.error;
}

-- A response for which the ledger must commit first: the row gets `error`, and the response `shown`.
unfoldable pub committed :
    ℕ
    → String
    → InvocationState
    → Option String
    → String
    → Option ErrorJson
    → InvokeState
    → Option ErrorJson
    → Ledger
    → Execution
committed now id state result refs error answered shown l =
    elim (finish_invocation now id state result refs error l) [
      | err e ↦ record { response = err e; ledger = l; sends = 0 }
      | ok l' ↦ record {
        response = ok (record { invocation_id = id; state = answered; error = shown });
        ledger = l';
        sends = 0;
      }
    ]

unfoldable pub classify_ambiguous : ℕ → String → ToolVersion → String → Ledger → Execution
classify_ambiguous now id tv reason l =
    let error = some (detail "outcome_unknown" reason "unknown") in
    if is_read_only tv.effect_class
    then committed now id InvocationState.failed none "[]" error InvokeState.failed error l
    else committed now id InvocationState.outcome_unknown none "[]" error
        InvokeState.outcome_unknown error l

unfoldable pub finish_failed : ℕ → String → ErrorJson → Ledger → Execution
finish_failed now id error l =
    committed now id InvocationState.failed none "[]" (some error) InvokeState.failed (some error) l

abbrev sent_error : String → Option ErrorJson
sent_error error = if error ==ₛ "" then none else some (sent_detail error)

-- The runner's own error is in the row only.
abbrev pub tool_failed : ErrorJson
tool_failed = detail "tool_failed" "tool execution failed" "unknown"

unfoldable pub finish_from_result :
    World → ℕ → String → ToolVersion → Report → String → String → String → Ledger → Execution
finish_from_result w now id tv success result refs error l = elim (w.result_fault result refs) [
  | some reason ↦ classify_ambiguous now id tv reason l
  | none ↦
      committed now id (report_state success) (some (if result ==ₛ "" then "{}" else result)) refs
        (sent_error error) InvokeState.succeeded none l
]
finish_from_result w now id tv report result refs error l =
    committed now id (report_state report) (nullable_json_bytes result) refs (sent_error error)
      InvokeState.failed (some tool_failed) l

unfoldable pub dispatch_timeout : Config → ToolVersion → ℕ
dispatch_timeout c tv = if ltb 0 tv.timeout_ms then tv.timeout_ms else c.default_timeout

-- renewDispatchLease of the service.
unfoldable pub establish_lease : Config → ℕ → String → ℕ → Ledger → Result LedgerError Ledger
establish_lease c now id timeout l =
    let lease = now + (timeout + c.dispatch_lease) in
    elim (mark_running now id "" lease c.instance_id l) [
      | ok l' ↦ ok l'
      | err e ↦ renew_dispatch_lease id c.instance_id lease l
    ]

unfoldable pub abort_after_lease_failure : ℕ → String → ToolVersion → Ledger → Execution
abort_after_lease_failure now id tv l = elim (lookup id l) [
  | none ↦ classify_ambiguous now id tv "dispatch lease not established/renewed" l
  | some inv ↦
      if is_terminal_invocation inv.state
      then record { response = ok (invocation_to_response id inv); ledger = l; sends = 0 }
      else classify_ambiguous now id tv "dispatch lease not established/renewed" l
]

abbrev is_idempotent : EffectClass → Bool
is_idempotent EffectClass.idempotent_write = true
is_idempotent _ = false

unfoldable pub can_retry : ToolVersion → String → Bool
can_retry tv id =
    is_read_only tv.effect_class
    || is_idempotent tv.effect_class && not (tv.idempotency_proof ==ₛ "") && not (id ==ₛ "")

unfoldable pub attempts_of : Config → ToolVersion → String → ℕ
attempts_of c tv id =
    if not (can_retry tv id)
    then 1
    else if ltb c.retry_max_attempts 1
    then 1
    else c.retry_max_attempts

-- One more send before what follows.
abbrev pub sent : Execution → Execution
sent x = record x { sends = 1 + x.sends }

module _ (c : Config) (w : World) (id : String) (tv : ToolVersion) where
  -- An answer that ends the loop.
  unfoldable pub finish_answer : ℕ → Answer → Ledger → Execution
  finish_answer now no_runner l = classify_ambiguous now id tv "no runner available for dispatch" l
  finish_answer now stream_lost l =
      sent (classify_ambiguous now id tv "runner stream lost / context cancelled after send" l)
  finish_answer now (dispatch_error message) l =
      sent (finish_failed now id (detail "dispatch_error" message "retryable") l)
  finish_answer now (reported report result refs error) l =
      sent (finish_from_result w now id tv report result refs error l)

  abbrev pub is_lost : Answer → Bool
  is_lost stream_lost = true
  is_lost _ = false

  -- The loop, from attempt `n` with `left` attempts to go.
  unfoldable pub attempt_from : ℕ → ℕ → Ledger → Execution
  attempt_from zero n l = classify_ambiguous (w.clock n) id tv "retry budget exhausted" l
  attempt_from (suc left) n l =
      let l0 = apply_all (w.before_lease n) l in
      elim (establish_lease c (w.clock n) id (dispatch_timeout c tv) l0) [
        | err e ↦ abort_after_lease_failure (w.clock n) id tv l0
        | ok l1 ↦
            let l2 = apply_all (w.before_result n) l1 in
            let again = attempt_from left (n + 1) l2 in
            if is_lost (w.answers n) && can_retry tv id && ltb 0 left
            then sent again
            else finish_answer (w.clock n) (w.answers n) l2
      ]

  unfoldable pub dispatch_with_retry : Ledger → Execution
  dispatch_with_retry l = attempt_from (attempts_of c tv id) 0 l

-- What InvokeTool has resolved before step 5: whether a runner serves the tool and the credentials resolve.
pub record Call : Type 0 where
  pub new_id : String
  pub tv : ToolVersion
  pub pool : String
  pub request : Request
  pub now : ℕ
  pub available : Bool
  pub credentials : Option String
  pub world : World

-- Steps 6 to 8 of InvokeTool; `credentials` holds the error of their resolution.
unfoldable pub execute_inserted : Config → Call → String → Ledger → Execution
execute_inserted c call id l =
    if not call.available
    then finish_failed call.now id
        (detail "tool_unavailable" "no live runner for the pinned tool version" "retryable") l
    else elim call.credentials [
      | some message ↦
          finish_failed call.now id (detail "credential_resolution_failed" message "non_retryable")
            l
      | none ↦ dispatch_with_retry c call.world id call.tv l
    ]

-- From step 5 on: a duplicate gets the response of the row that is there.
unfoldable pub execute_invocation : Config → InvocationKey → Call → Ledger → Execution
execute_invocation c key call l =
    elim (begin_invocation call.now call.new_id key call.tv (some call.pool) call.request
      (call.now + (dispatch_timeout c call.tv + c.dispatch_lease)) c.instance_id l) [
        | err e ↦ record { response = err e; ledger = l; sends = 0 }
        | ok (row, inserted, l1) ↦ if inserted then execute_inserted c call row.0 l1 else record {
          response = ok (invocation_to_response row.0 row.1);
          ledger = l1;
          sends = 0;
        }
      ]
