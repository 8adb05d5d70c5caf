-- ===== src/Dispatch/Conn.antt =====
-- workerConn of control-plane/internal/dispatch/workerpool.go: the credit of one worker. A method
-- that changes the receiver returns the new record.
use iterabase_mono.Common.{ℕ, String, Bool, true, false, not, ◌&&◌, ◌||◌, ◌==ₛ◌, if◌then◌else◌}

pub record WorkerConn : Type 0 where
  pub pool_id : String
  pub worker_id : String
  pub gen : ℕ
  pub closed : Bool
  pub idle : Bool
  pub credit_advertised : Bool
  pub active_turn : String
  pub last_seen : ℕ
  pub workspace_observed : Bool
  pub workspace_gated : Bool
  pub workspace_warning : Bool
  pub workspace_free : ℕ
  pub workspace_capacity : ℕ
  pub workspace_ratio : ℕ

-- `closeOnce` closes `done` on the first call; `closed` and the closed channel agree ever after.
unfoldable pub mark_closed : WorkerConn → WorkerConn
mark_closed w = record w { closed = true }

unfoldable pub try_consume_credit : WorkerConn → String → WorkerConn × Bool
try_consume_credit w turn_id =
    if w.closed || not w.idle || not w.credit_advertised || not (w.active_turn ==ₛ "")
    then (w, false)
    else (record w { idle = false; credit_advertised = false; active_turn = turn_id }, true)

unfoldable pub restore_credit_after_pre_delivery_failure : WorkerConn → String → WorkerConn × Bool
restore_credit_after_pre_delivery_failure w turn_id =
    if w.closed || not (w.active_turn ==ₛ turn_id)
    then (w, false)
    else let usable = w.workspace_observed && not w.workspace_gated in
      (record w { active_turn = ""; credit_advertised = true; idle = usable }, usable)

unfoldable pub release_turn : WorkerConn → WorkerConn
release_turn w = record w { active_turn = "" }

unfoldable pub release_assignment_failure : WorkerConn → String → Bool → WorkerConn × Bool
unfolding restore_credit_after_pre_delivery_failure release_turn
release_assignment_failure w turn_id delivery_attempted =
    if not delivery_attempted
    then restore_credit_after_pre_delivery_failure w turn_id
    else (release_turn w, false)

-- The results of `grantCreditIfIdle`.
pub record Grant : Type 0 where
  pub granted : Bool
  pub valid : Bool

unfoldable pub grant_credit_if_idle : ℕ → WorkerConn → WorkerConn × Grant
grant_credit_if_idle now w =
    if w.closed || not (w.active_turn ==ₛ "") || not w.workspace_observed
    then (w, record { granted = false; valid = false })
    else if w.workspace_gated
    then (
      record w { last_seen = now; credit_advertised = true; idle = false },
      record { granted = false; valid = true },
    )
    else (
      record w { last_seen = now; credit_advertised = true; idle = true },
      record { granted = true; valid = true },
    )

-- The arguments that `applyWorkspaceStatus` passes on.
pub record Status : Type 0 where
  pub free : ℕ
  pub capacity : ℕ
  pub ratio : ℕ
  pub warning : Bool
  pub gated : Bool

unfoldable pub apply_workspace_status : ℕ → Status → Bool → WorkerConn → WorkerConn × Bool
apply_workspace_status now s observed_by_worker w =
    let idle' = if w.active_turn ==ₛ "" then not s.gated && w.credit_advertised else w.idle in
    (
      record w {
        workspace_observed = w.workspace_observed || observed_by_worker;
        workspace_free = s.free;
        workspace_capacity = s.capacity;
        workspace_ratio = s.ratio;
        workspace_warning = s.warning;
        workspace_gated = s.gated;
        last_seen = if observed_by_worker then now else w.last_seen;
        idle = idle';
      },
      not w.idle && idle',
    )

unfoldable pub update_workspace_status : ℕ → Status → WorkerConn → WorkerConn × Bool
unfolding apply_workspace_status
update_workspace_status now s w = apply_workspace_status now s true w
