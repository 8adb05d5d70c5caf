-- ===== src/Gateway/LedgerScenarios.antt =====
-- A write that is invoked twice, whose first dispatch loses its stream, and a sweep over two orphans.
use iterabase_mono.Common.{◌+◌, ◌≤◌, String, ◌≡◌, refl, true, none, some, [], ◌∷◌}
use iterabase_mono.Common.Dict.{lookup, insert}
use iterabase_mono.Common.Result.{err}
use iterabase_mono.Gateway.Ledger.{
  EffectClass, CallerScope, InvocationState, ToolVersion, InvocationKey, Invocation, Ledger,
  null_refs, new_invocation, finish, sweep_writes, apply, apply_all, update_where, recover_writes,
  is_orphan, is_terminal_invocation, same_key, get_invocation_by_key, begin_invocation, update_row,
  is_open, mark_running, renew_dispatch_lease, finish_invocation,
}
use iterabase_mono.Gateway.Dispatching.{
  Answer, failure, stream_lost, reported, Config, World, Call, execute_invocation, execute_inserted,
  dispatch_with_retry, attempt_from, attempts_of, can_retry, establish_lease, dispatch_timeout,
  finish_answer, finish_from_result, report_state, committed,
}
use iterabase_mono.Gateway.Once.{total_sends, at_most_once}
use iterabase_mono.Gateway.Reported.{IsTrue, execute_invocation-IsTrue}
use iterabase_mono.Gateway.Recovery.{apply_all-KeepsRow}

abbrev pub mail_key : InvocationKey
mail_key = record {
  attempt_id = "a1";
  caller_scope = CallerScope.turn;
  caller_scope_id = "t1";
  tool_call_id = "c1";
  tool_version_digest = "d1";
  idempotency_key = "k1";
}

abbrev pub send_mail : ToolVersion
send_mail = record {
  name = "mail.send";
  digest = "d1";
  effect_class = EffectClass.non_idempotent_write;
  timeout_ms = 500;
  idempotency_proof = "";
}

abbrev pub config : Config
config = record {
  retry_max_attempts = 3;
  dispatch_lease = 100;
  default_timeout = 1000;
  instance_id = "g1";
}

-- The sweep runs while the call waits for its result.
abbrev world : Answer → World
world a = record {
  clock = λ n. 10 + n;
  answers = λ n. a;
  before_lease = λ n. [];
  before_result = λ n. sweep_writes 20 ∷ [];
  result_fault = λ result refs. none;
}

abbrev pub sending : String → Answer → Call
sending id a = record {
  new_id = id;
  tv = send_mail;
  pool = "p1";
  request = record {
    arguments_json = "{}";
    artifact_input_refs = "[]";
    consequence_summary = "mail";
  };
  now = 5;
  available = true;
  credentials = none;
  world = world a;
}

at_most_once_example :
    total_sends config mail_key
      (([], sending "v1" stream_lost) ∷ (sweep_writes 700 ∷ [], sending "v2" stream_lost) ∷ [])
      []
    ≤ 1
at_most_once_example =
    at_most_once config mail_key
      (([], sending "v1" stream_lost) ∷ (sweep_writes 700 ∷ [], sending "v2" stream_lost) ∷ []) []
      (refl, (refl, tt))

execute_invocation-IsTrue_example :
    IsTrue (execute_invocation config mail_key (sending "v1" (reported failure "" "[]" "{}")) [])
execute_invocation-IsTrue_example =
    execute_invocation-IsTrue config mail_key (sending "v1" (reported failure "" "[]" "{}")) [] tt

abbrev dispatched : Invocation
dispatched =
    new_invocation 5 mail_key send_mail (some "p1")
      (record { arguments_json = "{}"; artifact_input_refs = "[]"; consequence_summary = "mail" })
      605 "g1"

abbrev ended : Invocation
ended = record dispatched { state = InvocationState.succeeded; finished_at = some 9 }

abbrev rows : Ledger
rows = ("v1", dispatched) ∷ ("v2", ended) ∷ []

ended-terminal : is_terminal_invocation ended.state ≡ true
unfolding is_terminal_invocation
ended-terminal = refl

ended-stored : lookup "v2" rows ≡ some ended
unfolding lookup
ended-stored = refl

apply_all-KeepsRow_example :
    lookup "v2" (
      apply_all
        (sweep_writes 700 ∷ finish 701 "v2" InvocationState.failed none "[]" none ∷ [])
        rows)
    ≡ some ended
apply_all-KeepsRow_example =
    apply_all-KeepsRow
      (sweep_writes 700 ∷ finish 701 "v2" InvocationState.failed none "[]" none ∷ []) "v2" ended
      rows ended-terminal ended-stored

-- An InvokeError carries no list of references, and its result cannot be committed.
invoke_error-uncommitted :
    (execute_invocation config mail_key (sending "v1" (reported failure "" "" "{}")) []).response
    ≡ err null_refs
unfolding execute_invocation begin_invocation get_invocation_by_key same_key lookup insert
    execute_inserted dispatch_with_retry attempts_of can_retry attempt_from apply_all
    establish_lease mark_running renew_dispatch_lease update_row is_open dispatch_timeout
    finish_answer finish_from_result report_state committed finish_invocation apply recover_writes
    update_where is_orphan
invoke_error-uncommitted = refl
