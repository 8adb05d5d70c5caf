-- ===== src/Gateway/Scenarios.antt =====
-- Two runners; the second serves `mail.search` and works on an invocation.
use iterabase_mono.Common.{
  ℕ, zero, suc, String, ◌≡◌, ◌≢◌, ◌↔◌, refl, true, false, none, some, List, [], ◌∷◌, arith, eq_iff,
}
use iterabase_mono.Common.Dict.{lookup}
use iterabase_mono.Gateway.Runner.{
  DispatchResult, RunnerConn, RunnerPool, tool_ref_key, is_pending, begin_dispatch, end_dispatch,
  deliver, add_runner, remove_runner, propagate_cancel, runner_owns_invocation, pick, serves,
}
use iterabase_mono.Gateway.Delivery.{
  Event, reported, ended, registered, closed, stream_over, handle_all, first_result, AreForeign,
  dispatch-first_result, deliver-end_dispatch,
}
use iterabase_mono.Gateway.Choice.{
  IsIn, Finds, Owner, propagate_cancel-Finds, runner_owns_invocation-Owner,
  remove_runner-add_runner, add_runners, pick-Finds,
}

abbrev idle_runner : RunnerConn
idle_runner = record { runner_id = "r1"; pending = []; tools = []; closed = false }

abbrev mail_runner : RunnerConn
mail_runner = record {
  runner_id = "r2";
  pending = ("i1", none) ∷ [];
  tools = (tool_ref_key "mail.search" "d1", tt) ∷ [];
  closed = false;
}

abbrev runners : ℕ → RunnerConn
runners zero = idle_runner
runners (suc _) = mail_runner

abbrev pool : RunnerPool
pool = record { conns = 0 ∷ 1 ∷ []; heap = runners }

abbrev answer : DispatchResult
answer = record {
  state = "succeeded";
  result_json = "1";
  artifact_refs = "[]";
  error_detail = "";
  stream_lost = false;
}

abbrev later_name : String
later_name = "i3"

abbrev waited : List Event
waited =
    reported "i2" answer
    ∷ ended later_name
    ∷ registered "mail.send" "d2"
    ∷ reported "i1" answer
    ∷ closed
    ∷ stream_over
    ∷ []

later_other : later_name ≢ "i2"
later_other e = ground (arith, e, eq_iff "i3" "i2")

waited_foreign : AreForeign "i2" waited
waited_foreign = (tt, (later_other, (tt, (tt, (tt, (tt, tt))))))

dispatch-first_result_example :
    lookup "i2" (handle_all waited (begin_dispatch "i2" mail_runner).0).pending
    ≡ some (first_result "i2" waited)
dispatch-first_result_example = dispatch-first_result "i2" waited mail_runner refl waited_foreign

deliver-end_dispatch_example :
    let rc' = end_dispatch "i1" mail_runner in
    (deliver "i1" answer rc' ≡ (rc', false))
    × ((other : String)
        → other ≢ "i1"
        → lookup other rc'.pending ≡ lookup other mail_runner.pending)
deliver-end_dispatch_example = deliver-end_dispatch "i1" answer mail_runner

propagate_cancel-Finds_example :
    Finds (λ a. is_pending "i1" (pool.heap a)) pool.conns (propagate_cancel "i1" pool)
propagate_cancel-Finds_example = propagate_cancel-Finds "i1" pool

runner_owns_invocation-Owner_example :
    (runner_owns_invocation "r2" "i1" pool ≡ true) ↔ Owner "r2" "i1" pool.conns pool.heap
runner_owns_invocation-Owner_example = runner_owns_invocation-Owner "r2" "i1" pool

two_absent : ¬ IsIn 2 pool.conns
two_absent held = ground (arith, held)

remove_runner-add_runner_example :
    remove_runner 2 (add_runners (3 ∷ 4 ∷ []) (add_runner 2 pool)) ≡ add_runners (3 ∷ 4 ∷ []) pool
remove_runner-add_runner_example = remove_runner-add_runner 2 (3 ∷ 4 ∷ []) pool two_absent

pick-Finds_example :
    Finds (λ a. serves "mail.search" "d1" (pool.heap a)) pool.conns (pick "mail.search" "d1" pool)
pick-Finds_example = pick-Finds "mail.search" "d1" pool
