-- ===== src/Dispatch/Credit.antt =====
-- The credit protocol of one workerConn of control-plane/internal/dispatch/workerpool.go, over any
-- sequence of calls: what holds between two calls, and how many assignments a worker can be given.
use iterabase_mono.Common.{
  ℕ, ◌+◌, ◌≤◌, String, ◌≡◌, refl, ◌≢◌, Bool, true, false, not, ◌&&◌, ◌==ₛ◌, List, [], ◌∷◌, arith,
  eq_iff, if◌then◌else◌,
}
use iterabase_mono.Dispatch.Conn.{
  WorkerConn, Status, mark_closed, try_consume_credit, release_turn, release_assignment_failure,
  grant_credit_if_idle, apply_workspace_status,
}

pub record IsValid (w : WorkerConn) : Type 0 where
  pub idle_credit : w.idle ≡ true → w.credit_advertised ≡ true
  pub idle_free : w.idle ≡ true → w.active_turn ≡ ""
  pub idle_open : w.idle ≡ true → w.workspace_gated ≡ false
  pub credit_observed : w.credit_advertised ≡ true → w.workspace_observed ≡ true
  pub busy_spent : w.active_turn ≢ "" → w.credit_advertised ≡ false
  pub busy_observed : w.active_turn ≢ "" → w.workspace_observed ≡ true

-- The calls that the service makes on a connection.
pub data Call : Type 0 where
  ready : ℕ → Call
  assign : String → Call
  assign_failed : String → Bool → Call
  release : Call
  status : ℕ → Status → Bool → Call
  close : Call

unfoldable pub step : WorkerConn → Call → WorkerConn
step w (ready now) = (grant_credit_if_idle now w).0
step w (assign turn_id) = (try_consume_credit w turn_id).0
step w (assign_failed turn_id attempted) = (release_assignment_failure w turn_id attempted).0
step w release = release_turn w
step w (status now s own) = (apply_workspace_status now s own w).0
step w close = mark_closed w

unfoldable pub run : WorkerConn → List Call → WorkerConn
run w [] = w
run w (c ∷ cs) = run (step w c) cs

-- Turn ids are row ids of the runtime, and never empty.
abbrev pub IsNamed : Call → Type 0
IsNamed (assign turn_id) = turn_id ≢ ""
IsNamed (assign_failed turn_id attempted) = turn_id ≢ ""
IsNamed _ = Unit

abbrev pub AreNamed : List Call → Type 0
AreNamed [] = Unit
AreNamed (c ∷ cs) = IsNamed c × AreNamed cs

pub step-IsValid : (w : WorkerConn) (c : Call) → IsNamed c → IsValid w → IsValid (step w c)
unfolding step grant_credit_if_idle try_consume_credit release_assignment_failure
    apply_workspace_status mark_closed
step-IsValid w (ready now) n v = ground (arith, eq_iff w.active_turn "")
step-IsValid w (assign t) n v = ground (arith, eq_iff w.active_turn "", eq_iff t "")
step-IsValid w (assign_failed t a) n v =
    ground (arith, eq_iff w.active_turn t, eq_iff w.active_turn "")
step-IsValid w release n v = ground arith
step-IsValid w (status now s own) n v = ground (arith, eq_iff w.active_turn "")
step-IsValid w close n v = ground arith

-- Any sequence of calls with nonempty turn ids keeps a connection valid: an idle worker has an
-- unspent credit, no turn and an open gate; a credit, and a turn, is only ever held after the worker
-- has reported its workspace; and a worker with a turn has no credit left.
pub run-IsValid : (w : WorkerConn) (cs : List Call) → AreNamed cs → IsValid w → IsValid (run w cs)
unfolding run
run-IsValid w [] n v = v
run-IsValid w (c ∷ cs) n v = run-IsValid (step w c) cs n.1 (step-IsValid w c n.0 v)

-- Whether a call put the worker to a turn.
unfoldable pub assigned : WorkerConn → Call → ℕ
assigned w (assign turn_id) = if (try_consume_credit w turn_id).1 then 1 else 0
assigned w _ = 0

-- Whether a call hands in a credit: the Ready of an open connection without a turn that has reported its
-- workspace, or, on an open connection, a failure of the very turn it is put to, before delivery.
unfoldable pub offered : WorkerConn → Call → ℕ
offered w (ready now) =
    if not w.closed && w.active_turn ==ₛ "" && w.workspace_observed then 1 else 0
offered w (assign_failed turn_id attempted) =
    if not attempted && not w.closed && w.active_turn ==ₛ turn_id then 1 else 0
offered w _ = 0

unfoldable pub total_assigned : WorkerConn → List Call → ℕ
total_assigned w [] = 0
total_assigned w (c ∷ cs) = assigned w c + total_assigned (step w c) cs

unfoldable pub total_offered : WorkerConn → List Call → ℕ
total_offered w [] = 0
total_offered w (c ∷ cs) = offered w c + total_offered (step w c) cs

abbrev pub unspent : WorkerConn → ℕ
unspent w = if w.credit_advertised then 1 else 0

unspent-step :
    (w : WorkerConn) (c : Call) → assigned w c + unspent (step w c) ≤ unspent w + offered w c
unfolding step assigned offered grant_credit_if_idle try_consume_credit release_assignment_failure
    apply_workspace_status mark_closed
unspent-step w (ready now) = ground (arith, eq_iff w.active_turn "")
unspent-step w (assign t) = ground (arith, eq_iff w.active_turn "")
unspent-step w (assign_failed t a) = ground (arith, eq_iff w.active_turn t)
unspent-step w release = ground arith
unspent-step w (status now s own) = ground (arith, eq_iff w.active_turn "")
unspent-step w close = ground arith

-- Over any sequence of calls the assignments made, and a credit left unspent at the end, are at most
-- the credit held at the start and those handed in on the way: one by each Ready of an open connection
-- that has no turn and has reported its workspace, and one by each failure before delivery of the turn
-- that an open connection is put to.
pub assigned-le-offered :
    (w : WorkerConn) (cs : List Call)
    → total_assigned w cs + unspent (run w cs) ≤ unspent w + total_offered w cs
unfolding run total_assigned total_offered
assigned-le-offered w [] = omega arith
assigned-le-offered w (c ∷ cs) = omega (arith, unspent-step w c, assigned-le-offered (step w c) cs)

step_closed :
    (w : WorkerConn) (c : Call) → w.closed ≡ true → ((step w c).closed ≡ true) × (assigned w c ≡ 0)
unfolding step assigned offered grant_credit_if_idle try_consume_credit release_assignment_failure
    apply_workspace_status mark_closed
step_closed w (ready now) h = ground arith
step_closed w (assign t) h = ground arith
step_closed w (assign_failed t a) h = ground (arith, eq_iff w.active_turn t)
step_closed w release h = ground arith
step_closed w (status now s own) h = ground (arith, eq_iff w.active_turn "")
step_closed w close h = ground arith

run_closed : (v : WorkerConn) (ds : List Call) → v.closed ≡ true → total_assigned v ds ≡ 0
unfolding total_assigned
run_closed v [] h = refl
run_closed v (d ∷ ds) h =
    let (still, none_now) = step_closed v d h in omega (arith, run_closed (step v d) ds still)

-- Once a connection is marked closed, no later sequence of calls puts it to a turn.
pub closed_never_assigned :
    (w : WorkerConn) (cs : List Call) → total_assigned (mark_closed w) cs ≡ 0
unfolding mark_closed
closed_never_assigned w cs = run_closed (record w { closed = true }) cs refl
