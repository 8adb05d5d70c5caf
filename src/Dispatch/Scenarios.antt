-- ===== src/Dispatch/Scenarios.antt =====
-- Two workers of one pool, at every call that the theorems are about.
use iterabase_mono.Common.{
  ℕ, zero, suc, ◌+◌, ◌≤◌, String, ◌≡◌, refl, ◌≢◌, true, false, not, ◌&&◌, none, some, List, [], ◌∷◌,
  arith, eq_iff, contains, if◌then◌else◌, ◌==ₛ◌,
}
use iterabase_mono.Common.Dict.{lookup, is_none, IsMap}
use iterabase_mono.Dispatch.Conn.{WorkerConn, Status, try_consume_credit}
use iterabase_mono.Dispatch.Credit.{
  IsValid, Call, ready, assign, assign_failed, release, status, close, run, total_assigned,
  total_offered, unspent, AreNamed, run-IsValid, assigned-le-offered, closed_never_assigned,
}
use iterabase_mono.Dispatch.Conn.{mark_closed}
use iterabase_mono.Dispatch.Pool.{
  Heap, WorkerPool, WorkspaceCapacityState, pick_idle, active_conn, publish_workspace_status,
  sync_workspace_capacity, add, remove, key_of, pick_conn, worker_key,
}
use iterabase_mono.Dispatch.Picking.{Picks, Holds, Serves, pick_idle-Picks, active_conn-pick_idle}
use iterabase_mono.Dispatch.Gates.{publish-gated}
use iterabase_mono.Dispatch.Sync.{gate_of, lookup-sync}
use iterabase_mono.Dispatch.Registry.{remove-fenced}
use iterabase_mono.Dispatch.Sending.{
  Phase, registered, Guard, Reach, here, next, enter, lock, write, fresh, sum_of, writing,
  sends_exclusive,
}
use iterabase_mono.Dispatch.Teardown.{teardown_possible}

-- A worker that has said Ready, and has reported its workspace.
abbrev worker : WorkerConn
worker = record {
  pool_id = "pool";
  worker_id = "w0";
  gen = 1;
  closed = false;
  idle = true;
  credit_advertised = true;
  active_turn = "";
  last_seen = 5;
  workspace_observed = true;
  workspace_gated = false;
  workspace_warning = false;
  workspace_free = 90;
  workspace_capacity = 100;
  workspace_ratio = 0;
}

abbrev low : Status
low = record { free = 5; capacity = 100; ratio = 0; warning = true; gated = true }

worker-IsValid : IsValid worker
worker-IsValid = ground arith

abbrev calls : List Call
calls =
    assign "t1"
    ∷ assign_failed "t1" false
    ∷ assign "t1"
    ∷ release
    ∷ status 6 low true
    ∷ ready 7
    ∷ assign "t2"
    ∷ close
    ∷ []

abbrev first_turn : String
first_turn = "t1"

abbrev second_turn : String
second_turn = "t2"

t1_named : first_turn ≢ ""
t1_named e = ground (arith, e, eq_iff "t1" "")

t2_named : second_turn ≢ ""
t2_named e = ground (arith, e, eq_iff "t2" "")

calls_named : AreNamed calls
calls_named = (t1_named, (t1_named, (t1_named, (tt, (tt, (tt, (t2_named, (tt, tt))))))))

run-IsValid_example : IsValid (run worker calls)
run-IsValid_example = run-IsValid worker calls calls_named worker-IsValid

assigned-le-offered_example :
    total_assigned worker calls + unspent (run worker calls)
    ≤ unspent worker + total_offered worker calls
assigned-le-offered_example = assigned-le-offered worker calls

closed_never_assigned_example : total_assigned (mark_closed worker) calls ≡ 0
closed_never_assigned_example = closed_never_assigned worker calls

abbrev heap : Heap
heap zero = worker
heap (suc _) = record worker {
  worker_id = "w1";
  idle = false;
  active_turn = "t9";
  credit_advertised = false;
}

heap-IsValid : (a : ℕ) → IsValid (heap a)
heap-IsValid zero = worker-IsValid
heap-IsValid (suc _) = ground arith

abbrev pool : WorkerPool
pool = record {
  conns = ("pool/w1", 1) ∷ ("pool/w0", 0) ∷ [];
  gates = ("pool", false) ∷ ("old", false) ∷ [];
  heap = heap;
}

pick_idle-Picks_example :
    let (p', picked) = pick_idle "pool" "t1" pool in
    Picks "pool" "t1" pool.conns pool.heap (p'.heap, picked)
    × (p'.conns ≡ pool.conns)
    × (p'.gates ≡ pool.gates)
pick_idle-Picks_example = pick_idle-Picks "pool" "t1" pool

nobody-Serves : (b : ℕ) → Holds b pool.conns → ¬ Serves "t1" (pool.heap b)
nobody-Serves zero held s = ground (arith, s.0, eq_iff "" "t1")
nobody-Serves (suc _) held s = ground (arith, s.0, eq_iff "t9" "t1")

picked_first : (pick_idle "pool" "t1" pool).1 ≡ some 0
unfolding pick_idle pick_conn try_consume_credit
picked_first = refl

active_conn-pick_idle_example : active_conn "t1" (pick_idle "pool" "t1" pool).0 ≡ some 0
active_conn-pick_idle_example = active_conn-pick_idle "pool" "t1" pool 0 nobody-Serves picked_first

publish-gated_example :
    let p' = (publish_workspace_status 6 low 0 pool).0 in
    ((pick_idle "pool" "t1" p').1 ≡ none)
    × ((b : ℕ) → (pool.heap b).pool_id ≢ "pool" → p'.heap b ≡ pool.heap b)
    × ((k : String) → lookup k p'.gates ≡ (if "pool" ==ₛ k then some true else lookup k pool.gates))
publish-gated_example = publish-gated 6 low 0 pool "t1" refl heap-IsValid

abbrev states : List (String × WorkspaceCapacityState)
states =
    (
      "pool",
      record {
        pool_id = "pool";
        observed = true;
        free_bytes = 90;
        capacity_bytes = 100;
        free_ratio = 0;
        warning = false;
        credit_gated = false;
        storage_authorized = false;
        observed_at = some 5;
      },
    )
    ∷ []

states-IsMap : IsMap states
unfolding lookup
states-IsMap = (refl, tt)

lookup-sync_example :
    let (p', removed) = sync_workspace_capacity states pool in
    (lookup "pool" p'.gates ≡ gate_of (lookup "pool" states) none)
    × (contains removed "pool"
        ≡ (not (is_none (lookup "pool" pool.gates)) && is_none (lookup "pool" states)))
    × (p'.conns ≡ pool.conns)
lookup-sync_example = lookup-sync states pool "pool" states-IsMap

-- Address 2 is a reconnect of the worker at 1.
remove-fenced_example : remove 1 (add 2 pool).0 ≡ (add 2 pool).0
remove-fenced_example = remove-fenced 2 1 pool (omega arith) refl

registered_w1 : lookup (key_of (pool.heap 1)) pool.conns ≡ some 1
unfolding lookup worker_key
registered_w1 = refl

-- One sender writes, one waits for the lock.
abbrev busy : Guard
busy = record {
  closed = false;
  send_wg = 2;
  send_mu = true;
  stream_open = true;
  phases = Phase.sending ∷ registered ∷ [];
}

busy_reached : Reach (fresh 2) busy
busy_reached =
    next (next (next (next here (enter 0 refl refl)) (enter 1 refl refl)) (lock 0 refl refl))
      (write 0 refl refl)

sends_exclusive_example :
    (sum_of writing busy.phases ≤ 1) × (busy.stream_open ≡ false → sum_of writing busy.phases ≡ 0)
sends_exclusive_example = sends_exclusive 2 busy busy_reached

teardown_possible_example : (h : Guard) × Reach busy h × (h.stream_open ≡ false)
teardown_possible_example = teardown_possible 2 busy busy_reached
