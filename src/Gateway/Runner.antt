-- ===== src/Gateway/Runner.antt =====
-- runnerConn and runnerPool of control-plane/internal/gateway/runnerpool.go, with the end of a runner's
-- stream in gateway/service.go. A result channel has room for one result: it is the option that an
-- invocation's entry holds. A connection is an address into `heap`. `dispatch` is split where it waits:
-- `begin_dispatch` is its first critical section, `end_dispatch` its deferred one. Its send is in
-- Dispatch/Sending; the timer and the context that it also waits for are left out.
use Prim.Native.String.{◌++◌ as text_append}
use iterabase_mono.Common.{
  ℕ, String, Bool, true, false, not, Option, none, some, List, [], ◌∷◌, ◌++◌, ◌==◌, ◌==ₛ◌,
  if◌then◌else◌,
}
use iterabase_mono.Common.Dict.{lookup, insert, delete, has_key, is_none}

-- The JSON texts of a report are opaque.
pub record DispatchResult : Type 0 where
  pub state : String
  pub result_json : String
  pub artifact_refs : String
  pub error_detail : String
  pub stream_lost : Bool

abbrev pub lost : DispatchResult
lost = record {
  state = "";
  result_json = "";
  artifact_refs = "";
  error_detail = "";
  stream_lost = true;
}

abbrev pub Pending : Type 0
Pending = List (String × Option DispatchResult)

pub record RunnerConn : Type 0 where
  pub runner_id : String
  pub pending : Pending
  pub tools : List (String × Unit {0})
  pub closed : Bool

unfoldable pub tool_ref_key : String → String → String
tool_ref_key name digest = text_append name (text_append "\0" digest)

unfoldable pub register_tool : String → String → RunnerConn → RunnerConn
register_tool name digest rc = record rc { tools = insert (tool_ref_key name digest) tt rc.tools }

unfoldable pub retire_tool : String → String → RunnerConn → RunnerConn
retire_tool name digest rc = record rc { tools = delete (tool_ref_key name digest) rc.tools }

unfoldable pub serves : String → String → RunnerConn → Bool
serves tool digest rc = has_key rc.tools (tool_ref_key tool digest)

-- `false` where the connection is closed: the caller returns a lost stream at once.
unfoldable pub begin_dispatch : String → RunnerConn → RunnerConn × Bool
begin_dispatch invocation rc =
    if rc.closed
    then (rc, false)
    else (record rc { pending = insert invocation none rc.pending }, true)

unfoldable pub end_dispatch : String → RunnerConn → RunnerConn
end_dispatch invocation rc = record rc { pending = delete invocation rc.pending }

-- `select { case ch <- r: default: }` on a channel of capacity one.
abbrev pub offer : Option DispatchResult → DispatchResult → Option DispatchResult
offer none r = some r
offer (some old) r = some old

unfoldable pub deliver : String → DispatchResult → RunnerConn → RunnerConn × Bool
deliver invocation r rc = elim (lookup invocation rc.pending) [
  | none ↦ (rc, false)
  | some ch ↦ (record rc { pending = insert invocation (offer ch r) rc.pending }, true)
]

unfoldable pub lose_all : Pending → Pending
lose_all [] = []
lose_all ((invocation, ch) ∷ rest) = (invocation, offer ch lost) ∷ lose_all rest

-- The two critical sections of RegisterRunner's teardown.
unfoldable pub close_runner : RunnerConn → RunnerConn
close_runner rc = record rc { closed = true }

unfoldable pub lose_pending : RunnerConn → RunnerConn
lose_pending rc = record rc { pending = lose_all rc.pending }

pub record RunnerPool : Type 0 where
  pub conns : List ℕ
  pub heap : ℕ → RunnerConn

unfoldable pub add_runner : ℕ → RunnerPool → RunnerPool
add_runner a p = record p { conns = p.conns ++ a ∷ [] }

-- The first occurrence goes.
unfoldable pub remove_first : ℕ → List ℕ → List ℕ
remove_first a [] = []
remove_first a (b ∷ bs) = if b == a then bs else b ∷ remove_first a bs

unfoldable pub remove_runner : ℕ → RunnerPool → RunnerPool
remove_runner a p = record p { conns = remove_first a p.conns }

unfoldable pub pick_from : String → String → List ℕ → (ℕ → RunnerConn) → Option ℕ
pick_from tool digest [] h = none
pick_from tool digest (a ∷ as') h =
    if serves tool digest (h a) then some a else pick_from tool digest as' h

unfoldable pub pick : String → String → RunnerPool → Option ℕ
pick tool digest p = pick_from tool digest p.conns p.heap

unfoldable pub has_runner : String → String → RunnerPool → Bool
has_runner tool digest p = not (is_none (pick tool digest p))

abbrev pub is_pending : String → RunnerConn → Bool
is_pending invocation rc = has_key rc.pending invocation

unfoldable pub owns : String → String → List ℕ → (ℕ → RunnerConn) → Bool
owns runner_id invocation [] h = false
owns runner_id invocation (a ∷ as') h =
    let later = owns runner_id invocation as' h in
    if not ((h a).runner_id ==ₛ runner_id)
    then later
    else if is_pending invocation (h a)
    then true
    else later

unfoldable pub runner_owns_invocation : String → String → RunnerPool → Bool
runner_owns_invocation runner_id invocation p = owns runner_id invocation p.conns p.heap

-- The connection that `propagateCancel` sends to.
unfoldable pub cancel_target : String → List ℕ → (ℕ → RunnerConn) → Option ℕ
cancel_target invocation [] h = none
cancel_target invocation (a ∷ as') h =
    if is_pending invocation (h a) then some a else cancel_target invocation as' h

unfoldable pub propagate_cancel : String → RunnerPool → Option ℕ
propagate_cancel invocation p = cancel_target invocation p.conns p.heap
