-- ===== src/Gateway/Ledger.antt =====
-- The invocation ledger of control-plane/internal/gateway/store.go: BeginInvocation, RenewDispatchLease,
-- MarkRunning, FinishInvocation and RecoverOrphanedInvocations. A row is stored under its id, which the
-- database draws; JSON texts are opaque; `updated_at`, which no statement reads, is left out.
use iterabase_mono.Common.{
  ℕ, ◌+◌, String, Bool, true, false, not, ◌&&◌, Option, none, some, List, [], ◌∷◌, ltb, ◌==ₛ◌,
  if◌then◌else◌,
}
use iterabase_mono.Common.Dict.{lookup, insert, has_key, is_none}
use iterabase_mono.Common.Result.{Result, ok, err}

pub data EffectClass : Type 0 where
  read_only idempotent_write non_idempotent_write : EffectClass

pub data CallerScope : Type 0 where
  turn workflow_step : CallerScope

pub data InvocationState : Type 0 where
  dispatching running succeeded failed outcome_unknown : InvocationState

unfoldable pub is_terminal_invocation : InvocationState → Bool
is_terminal_invocation InvocationState.succeeded = true
is_terminal_invocation InvocationState.failed = true
is_terminal_invocation InvocationState.outcome_unknown = true
is_terminal_invocation _ = false

-- What the service and the store read of a tool version.
pub record ToolVersion : Type 0 where
  pub name : String
  pub digest : String
  pub effect_class : EffectClass
  pub timeout_ms : ℕ
  pub idempotency_proof : String

pub record InvocationKey : Type 0 where
  pub attempt_id : String
  pub caller_scope : CallerScope
  pub caller_scope_id : String
  pub tool_call_id : String
  pub tool_version_digest : String
  pub idempotency_key : String

-- The error of a row: the detail that a runner sent, or one of the gateway's own.
pub data ErrorJson : Type 0 where
  sent_detail : String → ErrorJson
  detail : String → String → String → ErrorJson

-- The columns of the at-most-once key are `key`.
pub record Invocation : Type 0 where
  pub key : InvocationKey
  pub tool_name : String
  pub effect_class : EffectClass
  pub pool_id : Option String
  pub runner_id : Option String
  pub arguments_json : String
  pub artifact_input_refs : String
  pub consequence_summary : Option String
  pub state : InvocationState
  pub result_json : Option String
  pub artifact_output_refs : String
  pub error : Option ErrorJson
  pub dispatch_lease_expires_at : Option ℕ
  pub gateway_instance_id : Option String
  pub dispatching_at : ℕ
  pub running_at : Option ℕ
  pub finished_at : Option ℕ

abbrev pub Ledger : Type 0
Ledger = List (String × Invocation)

pub data LedgerError : Type 0 where
  invalid_transition duplicate_id null_refs : LedgerError

abbrev pub same_scope : CallerScope → CallerScope → Bool
same_scope CallerScope.turn CallerScope.turn = true
same_scope CallerScope.workflow_step CallerScope.workflow_step = true
same_scope _ _ = false

-- The six columns of idx_invocations_uniq.
unfoldable pub same_key : InvocationKey → InvocationKey → Bool
same_key k j =
    k.attempt_id ==ₛ j.attempt_id
    && same_scope k.caller_scope j.caller_scope
    && k.caller_scope_id ==ₛ j.caller_scope_id
    && k.tool_call_id ==ₛ j.tool_call_id
    && k.tool_version_digest ==ₛ j.tool_version_digest
    && k.idempotency_key ==ₛ j.idempotency_key

unfoldable pub get_invocation_by_key : InvocationKey → Ledger → Option (String × Invocation)
get_invocation_by_key key [] = none
get_invocation_by_key key (e ∷ l) =
    if same_key e.1.key key then some e else get_invocation_by_key key l

abbrev pub nullable_json_bytes : String → Option String
nullable_json_bytes v = if v ==ₛ "" then none else some v

-- The payload of a call: its arguments, input references and rendered summary.
pub record Request : Type 0 where
  pub arguments_json : String
  pub artifact_input_refs : String
  pub consequence_summary : String

abbrev pub new_invocation :
    ℕ → InvocationKey → ToolVersion → Option String → Request → ℕ → String → Invocation
new_invocation now key tv pool request lease instance_id = record {
  key = key;
  tool_name = tv.name;
  effect_class = tv.effect_class;
  pool_id = pool;
  runner_id = none;
  arguments_json = request.arguments_json;
  artifact_input_refs = request.artifact_input_refs;
  consequence_summary = nullable_json_bytes request.consequence_summary;
  state = InvocationState.dispatching;
  result_json = none;
  artifact_output_refs = "[]";
  error = none;
  dispatch_lease_expires_at = some lease;
  gateway_instance_id = some instance_id;
  dispatching_at = now;
  running_at = none;
  finished_at = none;
}

-- The row, and whether it was inserted: on a conflict of keys it is the one that is there.
unfoldable pub begin_invocation :
    ℕ
    → String
    → InvocationKey
    → ToolVersion
    → Option String
    → Request
    → ℕ
    → String
    → Ledger
    → Result LedgerError ((String × Invocation) × Bool × Ledger)
begin_invocation now id key tv pool request lease instance_id l =
    elim (get_invocation_by_key key l) [
      | some e ↦ ok (e, false, l)
      | none ↦
          let inv = new_invocation now key tv pool request lease instance_id in
          if has_key l id then err duplicate_id else ok ((id, inv), true, insert id inv l)
    ]

-- `UPDATE ... SET change WHERE id = $1 AND test`, which fails where it affects no row.
unfoldable pub update_row :
    String → (Invocation → Bool) → (Invocation → Invocation) → Ledger → Result LedgerError Ledger
update_row id test change l = elim (lookup id l) [
  | none ↦ err invalid_transition
  | some inv ↦ if test inv then ok (insert id (change inv) l) else err invalid_transition
]

-- `state IN ('dispatching', 'running')`
unfoldable pub is_open : InvocationState → Bool
is_open InvocationState.dispatching = true
is_open InvocationState.running = true
is_open _ = false

abbrev pub is_dispatching : InvocationState → Bool
is_dispatching InvocationState.dispatching = true
is_dispatching _ = false

unfoldable pub renew_dispatch_lease : String → String → ℕ → Ledger → Result LedgerError Ledger
renew_dispatch_lease id instance_id lease l =
    update_row id (λ inv. is_open inv.state)
      (λ inv. record inv {
        dispatch_lease_expires_at = some lease;
        gateway_instance_id = some instance_id;
      })
      l

unfoldable pub mark_running : ℕ → String → String → ℕ → String → Ledger → Result LedgerError Ledger
mark_running now id runner lease instance_id l =
    update_row id (λ inv. is_dispatching inv.state)
      (λ inv. record inv {
        state = InvocationState.running;
        running_at = some now;
        runner_id = some runner;
        dispatch_lease_expires_at = some lease;
        gateway_instance_id = some instance_id;
      })
      l

abbrev pub finished_invocation :
    ℕ → InvocationState → Option String → String → Option ErrorJson → Invocation → Invocation
finished_invocation now state result artifact_refs error inv = record inv {
  state = state;
  result_json = result;
  artifact_output_refs = artifact_refs;
  error = error;
  finished_at = some now;
  dispatch_lease_expires_at = none;
}

-- A nil list of references is a null, which the column refuses.
unfoldable pub finish_invocation :
    ℕ
    → String
    → InvocationState
    → Option String
    → String
    → Option ErrorJson
    → Ledger
    → Result LedgerError Ledger
finish_invocation now id state result artifact_refs error l =
    elim (update_row id (λ inv. is_open inv.state)
      (finished_invocation now state result artifact_refs error) l) [
        | err e ↦ err e
        | ok l' ↦ if artifact_refs ==ₛ "" then err null_refs else ok l'
      ]

abbrev before : Option ℕ → ℕ → Bool
before none now = false
before (some t) now = ltb t now

-- An open row whose lease has expired.
unfoldable pub is_orphan : ℕ → Invocation → Bool
is_orphan now inv =
    is_open inv.state && is_none inv.finished_at && before inv.dispatch_lease_expires_at now

abbrev pub is_read_only : EffectClass → Bool
is_read_only EffectClass.read_only = true
is_read_only _ = false

abbrev pub orphan_read : ℕ → Invocation → Bool
orphan_read now inv = is_orphan now inv && is_read_only inv.effect_class

abbrev pub orphan_write : ℕ → Invocation → Bool
orphan_write now inv = is_orphan now inv && not (is_read_only inv.effect_class)

-- `UPDATE ... SET change WHERE test`
unfoldable pub update_where : (Invocation → Bool) → (Invocation → Invocation) → Ledger → Ledger
update_where test change [] = []
update_where test change (e ∷ l) =
    (e.0, if test e.1 then change e.1 else e.1) ∷ update_where test change l

-- `RowsAffected`
unfoldable pub rows_affected : (Invocation → Bool) → Ledger → ℕ
rows_affected test [] = 0
rows_affected test (e ∷ l) = let rest = rows_affected test l in if test e.1 then 1 + rest else rest

abbrev pub closed_by : ℕ → InvocationState → String → String → Invocation → Invocation
closed_by now state message retry inv = record inv {
  state = state;
  finished_at = some now;
  error = some (detail "outcome_unknown" message retry);
  dispatch_lease_expires_at = none;
}

abbrev pub failed_orphan : ℕ → Invocation → Invocation
failed_orphan now =
    closed_by now InvocationState.failed "dispatch lease expired during recovery (read_only)"
      "retryable"

abbrev pub unknown_orphan : ℕ → Invocation → Invocation
unknown_orphan now =
    closed_by now InvocationState.outcome_unknown
      "dispatch lease expired during recovery (possible effect, no committed result)" "unknown"

-- The two updates of the sweep, each with the rows that it affected. Each is a statement of its own.
unfoldable pub recover_read_only : ℕ → Ledger → ℕ × Ledger
recover_read_only now l =
    (rows_affected (orphan_read now) l, update_where (orphan_read now) (failed_orphan now) l)

unfoldable pub recover_writes : ℕ → Ledger → ℕ × Ledger
recover_writes now l =
    (rows_affected (orphan_write now) l, update_where (orphan_write now) (unknown_orphan now) l)

-- A call of the store that writes to the ledger, where the sweep is its two statements.
pub data LedgerOp : Type 0 where
  begin : ℕ → String → InvocationKey → ToolVersion → Option String → Request → ℕ → String → LedgerOp
  renew : String → String → ℕ → LedgerOp
  mark : ℕ → String → String → ℕ → String → LedgerOp
  finish : ℕ → String → InvocationState → Option String → String → Option ErrorJson → LedgerOp
  sweep_reads sweep_writes : ℕ → LedgerOp

abbrev pub kept_or : Ledger → Result LedgerError Ledger → Ledger
kept_or l (err e) = l
kept_or l (ok l') = l'

unfoldable pub apply : LedgerOp → Ledger → Ledger
apply (begin now id key tv pool request lease instance_id) l =
    elim (begin_invocation now id key tv pool request lease instance_id l) [
      | err e ↦ l
      | ok (row, inserted, l') ↦ l'
    ]
apply (renew id instance_id lease) l = kept_or l (renew_dispatch_lease id instance_id lease l)
apply (mark now id runner lease instance_id) l =
    kept_or l (mark_running now id runner lease instance_id l)
apply (finish now id state result refs error) l =
    kept_or l (finish_invocation now id state result refs error l)
apply (sweep_reads now) l = (recover_read_only now l).1
apply (sweep_writes now) l = (recover_writes now l).1

unfoldable pub apply_all : List LedgerOp → Ledger → Ledger
apply_all [] l = l
apply_all (op ∷ ops) l = apply_all ops (apply op l)

-- The sweep: each update has its own time, and others write to the ledger between them. The counts are those
-- of RecoveryCounts.
unfoldable pub recover_orphaned_invocations : ℕ → ℕ → List LedgerOp → Ledger → (ℕ × ℕ) × Ledger
recover_orphaned_invocations now later others l =
    let (failures, l1) = recover_read_only now l in
    let (unknowns, l2) = recover_writes later (apply_all others l1) in ((failures, unknowns), l2)
