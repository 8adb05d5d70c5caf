-- ===== src/Dispatch/Pool.antt =====
-- workerPool of control-plane/internal/dispatch/workerpool.go: the live connections by
-- (pool, worker), and each AgentPool's gate. Pointers to connections are addresses of `heap`, so
-- that a fenced connection lives on after its key names another one.
use iterabase_mono.Common.{
  ℕ, String, Bool, true, false, not, ◌&&◌, ◌||◌, Option, none, some, List, [], ◌∷◌, ◌++◌, map, ◌==◌,
  ◌==ₛ◌, if◌then◌else◌,
}
use Prim.Native.String.{◌++◌ as text_append}
use iterabase_mono.Common.Dict.{lookup, insert, delete}
use iterabase_mono.Dispatch.Conn.{WorkerConn, Status, try_consume_credit, apply_workspace_status}

abbrev pub Heap : Type 0
Heap = ℕ → WorkerConn

abbrev pub update : Heap → ℕ → WorkerConn → Heap
update h a w b = if a == b then w else h b

pub record WorkerPool : Type 0 where
  pub conns : List (String × ℕ)
  pub gates : List (String × Bool)
  pub heap : Heap

-- store.go: one AgentPool PVC's durable state.
pub record WorkspaceCapacityState : Type 0 where
  pub pool_id : String
  pub observed : Bool
  pub free_bytes : ℕ
  pub capacity_bytes : ℕ
  pub free_ratio : ℕ
  pub warning : Bool
  pub credit_gated : Bool
  pub storage_authorized : Bool
  pub observed_at : Option ℕ

unfoldable pub fresh_credit_gated : WorkspaceCapacityState → Bool
fresh_credit_gated s = s.credit_gated || not s.storage_authorized

-- The heap is the program's, and holds connections before any pool does.
unfoldable pub new_worker_pool : Heap → WorkerPool
new_worker_pool h = record { conns = []; gates = []; heap = h }

unfoldable pub worker_key : String → String → String
worker_key pool_id worker_id = text_append pool_id (text_append "/" worker_id)

unfoldable pub seed_gates :
    List (String × WorkspaceCapacityState) → List (String × Bool) → List (String × Bool)
seed_gates [] gates = gates
seed_gates ((pool_id, state) ∷ states) gates =
    seed_gates states (insert pool_id (fresh_credit_gated state) gates)

unfoldable pub seed_workspace_capacity :
    List (String × WorkspaceCapacityState) → WorkerPool → WorkerPool
seed_workspace_capacity states p = record p { gates = seed_gates states p.gates }

-- The first loop of `syncWorkspaceCapacity`, over the gates as they were.
unfoldable pub prune :
    List (String × WorkspaceCapacityState)
    → List (String × Bool)
    → List (String × Bool)
    → List String
    → List (String × Bool) × List String
prune states [] gates removed = (gates, removed)
prune states ((pool_id, _) ∷ rest) gates removed = elim (lookup pool_id states) [
  | none ↦ prune states rest (delete pool_id gates) (removed ++ pool_id ∷ [])
  | some _ ↦ prune states rest gates removed
]

unfoldable pub sync_workspace_capacity :
    List (String × WorkspaceCapacityState) → WorkerPool → WorkerPool × List String
sync_workspace_capacity states p =
    let (gates, removed) = prune states p.gates p.gates [] in
    (record p { gates = seed_gates states gates }, removed)

unfoldable pub apply_to_conns : ℕ → Status → ℕ → String → List (String × ℕ) → Heap → Heap × Bool
apply_to_conns now s source pool_id [] h = (h, false)
apply_to_conns now s source pool_id ((k, a) ∷ conns) h =
    let skipped = apply_to_conns now s source pool_id conns h in
    let (w, restored) = apply_workspace_status now s (a == source) (h a) in
    let (h', more) = apply_to_conns now s source pool_id conns (update h a w) in
    if not ((h a).pool_id ==ₛ pool_id) then skipped else (h', restored || more)

unfoldable pub publish_workspace_status : ℕ → Status → ℕ → WorkerPool → WorkerPool × Bool
publish_workspace_status now s source p =
    let pool_id = (p.heap source).pool_id in
    let (h, restored) = apply_to_conns now s source pool_id p.conns p.heap in
    (record p { gates = insert pool_id s.gated p.gates; heap = h }, restored)

abbrev pub key_of : WorkerConn → String
key_of w = worker_key w.pool_id w.worker_id

abbrev pub or_gated : Option Bool → Bool
or_gated none = true
or_gated (some gated) = gated

unfoldable pub add : ℕ → WorkerPool → WorkerPool × Option ℕ
add a p =
    let w = p.heap a in
    let w' = record w { workspace_gated = or_gated (lookup w.pool_id p.gates) } in
    (
      record p { conns = insert (key_of w) a p.conns; heap = update p.heap a w' },
      lookup (key_of w) p.conns,
    )

abbrev pub is_conn : Option ℕ → ℕ → Bool
is_conn none a = false
is_conn (some b) a = b == a

unfoldable pub remove : ℕ → WorkerPool → WorkerPool
remove a p =
    let key = key_of (p.heap a) in
    if is_conn (lookup key p.conns) a then record p { conns = delete key p.conns } else p

unfoldable pub get : String → String → WorkerPool → Option ℕ
get pool_id worker_id p = lookup (worker_key pool_id worker_id) p.conns

unfoldable pub pick_conn : String → String → List (String × ℕ) → Heap → Heap × Option ℕ
pick_conn pool_id turn_id [] h = (h, none)
pick_conn pool_id turn_id ((k, a) ∷ conns) h =
    let rest = pick_conn pool_id turn_id conns h in
    let (w, taken) = try_consume_credit (h a) turn_id in
    if not ((h a).pool_id ==ₛ pool_id) then rest else if taken then (update h a w, some a) else rest

unfoldable pub pick_idle : String → String → WorkerPool → WorkerPool × Option ℕ
pick_idle pool_id turn_id p =
    let (h, picked) = pick_conn pool_id turn_id p.conns p.heap in (record p { heap = h }, picked)

unfoldable pub find_active : String → List (String × ℕ) → Heap → Option ℕ
find_active turn_id [] h = none
find_active turn_id ((k, a) ∷ conns) h =
    if (h a).active_turn ==ₛ turn_id && not (h a).closed
    then some a
    else find_active turn_id conns h

unfoldable pub active_conn : String → WorkerPool → Option ℕ
active_conn turn_id p = find_active turn_id p.conns p.heap

abbrev pub all : WorkerPool → List ℕ
all p = map (λ (_, a). a) p.conns
