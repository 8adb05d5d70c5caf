-- ===== src/Gateway/Policy.antt =====
-- The checks of InvokeTool in control-plane/internal/gateway/service.go before its ledger row: authorize,
-- authorizeWorkflowCapability, capabilityAllowsAction, assertResourcePolicy and resourceAllowed, with
-- effectRank of gateway/store.go. What the queries find is an argument, and so is whether the arguments fit
-- the schema, the artifact references are allowed and the summary renders. A `blank` text has no bytes here.
use iterabase_mono.Common.{
  ℕ, String, Bool, true, false, not, ◌&&◌, ◌||◌, Option, none, some, List, [], ◌∷◌, ltb, ◌==ₛ◌,
  if◌then◌else◌,
}
use iterabase_mono.Common.Dict.{lookup}
use iterabase_mono.Common.Result.{Result, ok, err, ◌>>=◌, ◌>>◌, reject_if, or_fail, each}
use iterabase_mono.Workflow.Json.{Json, string, array, Raw, blank, items, decode_map, is_trivial}
use iterabase_mono.Gateway.Ledger.{EffectClass, ToolVersion, InvocationKey, detail, Ledger}
use iterabase_mono.Gateway.Dispatching.{InvokeState, Config, Execution, Call, execute_invocation}

pub record Capability : Type 0 where
  pub tool : String
  pub max_effect_class : String
  pub actions : List String

pub record PoolGrant : Type 0 where
  pub max_effect_class : String
  pub allowed_actions : List String

pub data PolicyError : Type 0 where
  not_permitted not_granted : PolicyError
  above_capability above_grant : PolicyError
  action_outside_capability action_outside_grant : PolicyError
  invalid_arguments : PolicyError
  invalid_constraints : String → PolicyError
  outside_constraint : String → String → PolicyError

abbrev pub effect_text : EffectClass → String
effect_text EffectClass.read_only = "read_only"
effect_text EffectClass.idempotent_write = "idempotent_write"
effect_text EffectClass.non_idempotent_write = "non_idempotent_write"

unfoldable pub effect_rank : String → ℕ
effect_rank c =
    if c ==ₛ "read_only"
    then 1
    else if c ==ₛ "idempotent_write"
    then 2
    else if c ==ₛ "non_idempotent_write"
    then 3
    else 0

abbrev pub action_for_tool : ToolVersion → String
action_for_tool tv = tv.name

-- The loop over an action list, for the action or the wildcard.
unfoldable pub lists_action : String → List String → Bool
lists_action action [] = false
lists_action action (a ∷ as') = a ==ₛ action || a ==ₛ "*" || lists_action action as'

abbrev pub none_listed : List String → Bool
none_listed [] = true
none_listed (_ ∷ _) = false

unfoldable pub capability_allows_action : Capability → ToolVersion → Bool
capability_allows_action cap tv =
    none_listed cap.actions || lists_action (action_for_tool tv) cap.actions

abbrev pub exceeds : ToolVersion → String → Bool
exceeds tv ceiling = ltb (effect_rank ceiling) (effect_rank (effect_text tv.effect_class))

unfoldable pub check_capability : Capability → ToolVersion → Result PolicyError (Unit {0})
check_capability cap tv = do
  reject_if (not (cap.max_effect_class ==ₛ "") && exceeds tv cap.max_effect_class) above_capability
  reject_if (not (capability_allows_action cap tv)) action_outside_capability

-- The first capability of the tool decides.
unfoldable pub find_capability : List Capability → ToolVersion → Result PolicyError (Unit {0})
find_capability [] tv = err not_permitted
find_capability (cap ∷ caps) tv =
    if cap.tool ==ₛ tv.name then check_capability cap tv else find_capability caps tv

-- `none` is the nil slice of a turn.
unfoldable pub authorize_workflow_capability :
    Option (List Capability) → ToolVersion → Result PolicyError (Unit {0})
authorize_workflow_capability none tv = ok tt
authorize_workflow_capability (some caps) tv = find_capability caps tv

unfoldable pub authorize :
    Option (List Capability) → Option PoolGrant → ToolVersion → Result PolicyError (Unit {0})
authorize permitted grant tv = do
  authorize_workflow_capability permitted tv
  g ← or_fail grant not_granted
  reject_if (exceeds tv g.max_effect_class) above_grant
  reject_if
      (not (none_listed g.allowed_actions || lists_action (action_for_tool tv) g.allowed_actions))
      action_outside_grant

unfoldable pub lists_value : String → List Json → Bool
lists_value val [] = false
lists_value val (string s ∷ js) = s ==ₛ val || s ==ₛ "*" || lists_value val js
lists_value val (_ ∷ js) = lists_value val js

unfoldable pub resource_allowed : Json → String → Bool
resource_allowed (string a) val = a ==ₛ val || a ==ₛ "*"
resource_allowed (array js) val = lists_value val (items js)
resource_allowed _ val = false

-- A dimension that the arguments do not name, or not by a text, is skipped.
abbrev pub named_value : Option Json → Option String
named_value (some (string s)) = some s
named_value _ = none

unfoldable pub check_dimension :
    List (String × Json) → String → String × Json → Result PolicyError (Unit {0})
check_dimension args slot (dim, allowed) = elim (named_value (lookup dim args)) [
  | none ↦ ok tt
  | some val ↦ reject_if (not (resource_allowed allowed val)) (outside_constraint slot dim)
]

unfoldable pub check_binding : List (String × Json) → String × Raw → Result PolicyError (Unit {0})
check_binding args (slot, raw) = if is_trivial raw then ok tt else (do
  constraints ← or_fail (decode_map raw) (invalid_constraints slot)
  each (check_dimension args slot) constraints)

abbrev pub decode_args : Raw → Option (List (String × Json))
decode_args blank = some []
decode_args raw = decode_map raw

-- Over the bindings of the pool and the tool, each with its slot and its constraints.
unfoldable pub assert_resource_policy : List (String × Raw) → Raw → Result PolicyError (Unit {0})
assert_resource_policy [] raw = ok tt
assert_resource_policy (b ∷ bs) raw = do
  args ← or_fail (decode_args raw) invalid_arguments
  each (check_binding args) (b ∷ bs)

pub record Admission : Type 0 where
  pub permitted : Option (List Capability)
  pub grant : Option PoolGrant
  pub fits_schema : Bool
  pub artifacts_allowed : Bool
  pub bindings : List (String × Raw)
  pub arguments : Raw
  pub renders : Bool

-- A failure before the ledger row: its message is left out.
abbrev pub denied : String → Ledger → Execution
denied code l = record {
  response = ok (record {
    invocation_id = "";
    state = InvokeState.failed;
    error = some (detail code "" "non_retryable");
  });
  ledger = l;
  sends = 0;
}

-- Steps 3 to 8 of InvokeTool.
unfoldable pub invoke_tool : Config → InvocationKey → Admission → Call → Ledger → Execution
invoke_tool c key a call l = elim (authorize a.permitted a.grant call.tv) [
  | err e ↦ denied "permission_denied" l
  | ok _ ↦
      if not a.fits_schema
      then denied "invalid_arguments" l
      else if not a.artifacts_allowed
      then denied "artifact_access_denied" l
      else elim (assert_resource_policy a.bindings a.arguments) [
        | err e ↦ denied "permission_denied" l
        | ok _ ↦
            if not a.renders
            then denied "consequence_summary_invalid" l
            else execute_invocation c key call l
      ]
]
