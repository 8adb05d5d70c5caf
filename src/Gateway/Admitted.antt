-- ===== src/Gateway/Admitted.antt =====
-- Which calls of InvokeTool in control-plane/internal/gateway/service.go reach the ledger.
use mathlib.Core.Bool.{true≢false}
use iterabase_mono.Common.{
  ◌≤◌, String, ◌≡◌, refl, sym, ap, ◌∙◌, subst, ◌⊎◌, inl, inr, Bool, true, false, not, ◌&&◌, ◌||◌,
  some, List, [], ◌∷◌, arith, All, Bool-cases, ◌==ₛ◌, contains, eq_iff,
}
use iterabase_mono.Common.Dict.{lookup}
use iterabase_mono.Common.Result.{
  ok, each, each-eq-ok, >>-eq-ok, >>=-eq-ok, or_fail, or_fail-eq-ok, reject_if, reject_if-eq-ok,
}
use iterabase_mono.Workflow.Json.{Json, string, Raw, decode_map, is_trivial}
use iterabase_mono.Gateway.Ledger.{ToolVersion}
use iterabase_mono.Gateway.Policy.{
  Capability, PoolGrant, effect_text, effect_rank, lists_action, none_listed,
  capability_allows_action, exceeds, check_capability, find_capability,
  authorize_workflow_capability, authorize, resource_allowed, check_dimension, check_binding,
  decode_args, assert_resource_policy, Admission, not_granted, invalid_arguments,
  invalid_constraints, above_capability, above_grant, action_outside_capability,
  action_outside_grant, outside_constraint,
}

-- An action list that is empty, or lists the tool or the wildcard.
abbrev pub Allows : List String → ToolVersion → Type 0
Allows actions tv =
    (actions ≡ []) ⊎ ((contains actions tv.name ≡ true) ⊎ (contains actions "*" ≡ true))

abbrev pub IsBelow : ToolVersion → String → Type 0
IsBelow tv ceiling = effect_rank (effect_text tv.effect_class) ≤ effect_rank ceiling

-- The capability is the first one of the tool.
abbrev pub IsFirst : Capability → List Capability → ToolVersion → Type 0
IsFirst cap [] tv = ⊥
IsFirst cap (x ∷ xs) tv =
    ((x ≡ cap) × (x.tool ≡ tv.name)) ⊎ ((x.tool ==ₛ tv.name ≡ false) × IsFirst cap xs tv)

abbrev pub IsPermitted : List Capability → ToolVersion → Type 0
IsPermitted caps tv =
    (cap : Capability) × IsFirst cap caps tv
    × ((cap.max_effect_class ≡ "") ⊎ IsBelow tv cap.max_effect_class)
    × Allows cap.actions tv

-- The grant and, for a workflow step, the capability of the tool allow its effect and its action.
pub record IsAuthorized (a : Admission) (tv : ToolVersion) : Type 0 where
  pub granted :
      (g : PoolGrant) × (a.grant ≡ some g)
      × IsBelow tv g.max_effect_class
      × Allows g.allowed_actions tv
  pub permitted : (caps : List Capability) → a.permitted ≡ some caps → IsPermitted caps tv

lists_action-contains :
    (action : String) (actions : List String)
    → lists_action action actions ≡ true
    → (contains actions action ≡ true) ⊎ (contains actions "*" ≡ true)
unfolding lists_action
lists_action-contains action [] h = cc
lists_action-contains action (x ∷ xs) h = elim (Bool-cases (lists_action action xs)) [
  | inl later ↦ elim (lists_action-contains action xs later) [
    | inl own ↦ inl (ground (arith, own))
    | inr any ↦ inr (ground (arith, any))
  ]
  | inr none_later ↦ elim (Bool-cases (x ==ₛ action)) [
    | inl own ↦ inl (ground (arith, own))
    | inr other ↦ inr (ground (arith, h, none_later, other))
  ]
]

allowed-Allows :
    (actions : List String) (tv : ToolVersion)
    → (none_listed actions || lists_action tv.name actions) ≡ true
    → Allows actions tv
allowed-Allows [] tv h = inl refl
allowed-Allows (x ∷ xs) tv h = inr (lists_action-contains tv.name (x ∷ xs) h)

not-true : (b : Bool) → not b ≡ false → b ≡ true
not-true true h = refl
not-true false h = absurd (true≢false h)

below : (tv : ToolVersion) (ceiling : String) → exceeds tv ceiling ≡ false → IsBelow tv ceiling
below tv ceiling h = ground (arith, h)

check_capability-allowed :
    (cap : Capability) (tv : ToolVersion)
    → check_capability cap tv ≡ ok tt
    → ((cap.max_effect_class ≡ "") ⊎ IsBelow tv cap.max_effect_class) × Allows cap.actions tv
unfolding check_capability capability_allows_action
check_capability-allowed cap tv h =
    let (first, second) =
      >>-eq-ok
        (reject_if (not (cap.max_effect_class ==ₛ "") && exceeds tv cap.max_effect_class)
          above_capability)
        (reject_if (not (capability_allows_action cap tv)) action_outside_capability) h in
    let ceiling = reject_if-eq-ok _ above_capability first in
    let action = not-true _ (reject_if-eq-ok _ action_outside_capability second) in
    (
      elim (Bool-cases (cap.max_effect_class ==ₛ "")) [
        | inl unset ↦ inl ((eq_iff cap.max_effect_class "").0 unset)
        | inr set ↦ inr (below tv cap.max_effect_class (ground (arith, ceiling, set)))
      ],
      allowed-Allows cap.actions tv action,
    )

find_capability-IsPermitted :
    (caps : List Capability) (tv : ToolVersion)
    → find_capability caps tv ≡ ok tt
    → IsPermitted caps tv
unfolding find_capability
find_capability-IsPermitted [] tv h = cc
find_capability-IsPermitted (cap ∷ caps) tv h = elim (Bool-cases (cap.tool ==ₛ tv.name)) [
  | inl same ↦
      let (ceiling, action) = check_capability-allowed cap tv (rw same at h) in
      (cap, inl (refl, (eq_iff cap.tool tv.name).0 same), ceiling, action)
  | inr other ↦
      let (c, first, ceiling, action) = find_capability-IsPermitted caps tv (rw other at h) in
      (c, inr (other, first), ceiling, action)
]

pub authorize-IsAuthorized :
    (a : Admission) (tv : ToolVersion)
    → authorize a.permitted a.grant tv ≡ ok tt
    → IsAuthorized a tv
unfolding authorize
authorize-IsAuthorized a tv h =
    let (narrow, rest) = >>-eq-ok (authorize_workflow_capability a.permitted tv) _ h in
    let (g, found, checks) = >>=-eq-ok (or_fail a.grant not_granted) _ rest in
    let (effect, action) =
      >>-eq-ok (reject_if (exceeds tv g.max_effect_class) above_grant) _ checks in
    record {
      granted = (
        g,
        or_fail-eq-ok a.grant not_granted found,
        below tv g.max_effect_class (reject_if-eq-ok _ above_grant effect),
        allowed-Allows g.allowed_actions tv
            (not-true _ (reject_if-eq-ok _ action_outside_grant action)),
      );
      permitted = λ caps e. find_capability-IsPermitted caps tv (
          unfold authorize_workflow_capability in
          ap (λ p. authorize_workflow_capability p tv) (sym e) ∙ narrow);
    }

-- No constrained dimension that the arguments name by a text has a value outside its scope.
abbrev pub IsInScope : List (String × Json) → String × Raw → Type 0
IsInScope args (slot, raw) =
    (is_trivial raw ≡ true)
    ⊎ ((constraints : List (String × Json)) × (decode_map raw ≡ some constraints)
        × All
            (λ (c : String × Json).
              (val : String)
              → lookup c.0 args ≡ some (string val)
              → resource_allowed c.1 val ≡ true)
            constraints)

abbrev pub AreInScope : Admission → Type 0
AreInScope a =
    (a.bindings ≡ [])
    ⊎ ((args : List (String × Json)) × (decode_args a.arguments ≡ some args)
        × All (IsInScope args) a.bindings)

pub All-map {ℓ κ μ} :
    {A : Type ℓ} (P : A → Type κ) (Q : A → Type μ) (xs : List A)
    → ((x : A) → P x → Q x)
    → All P xs
    → All Q xs
All-map P Q [] f h = tt
All-map P Q (x ∷ xs) f h = (f x h.0, All-map P Q xs f h.1)

check_dimension-allowed :
    (args : List (String × Json)) (slot : String) (c : String × Json) (val : String)
    → check_dimension args slot c ≡ ok tt
    → lookup c.0 args ≡ some (string val)
    → resource_allowed c.1 val ≡ true
unfolding check_dimension
check_dimension-allowed args slot (dim, allowed) val h found =
    not-true _ (reject_if-eq-ok _ (outside_constraint slot dim) (rw (found, check_dimension) at h))

check_binding-IsInScope :
    (args : List (String × Json)) (b : String × Raw)
    → check_binding args b ≡ ok tt
    → IsInScope args b
unfolding check_binding
check_binding-IsInScope args (slot, raw) h = elim (Bool-cases (is_trivial raw)) [
  | inl skipped ↦ inl skipped
  | inr narrows ↦
      let (constraints, found, checks) =
        >>=-eq-ok (or_fail (decode_map raw) (invalid_constraints slot))
          (λ cs. each (check_dimension args slot) cs) (rw narrows at h) in
      inr (
        constraints,
        or_fail-eq-ok (decode_map raw) (invalid_constraints slot) found,
        All-map _ _ constraints (λ c k val. check_dimension-allowed args slot c val k)
            (each-eq-ok (check_dimension args slot) constraints checks),
      )
]

pub policy-AreInScope :
    (a : Admission) (bs : List (String × Raw))
    → a.bindings ≡ bs
    → assert_resource_policy bs a.arguments ≡ ok tt
    → AreInScope a
unfolding assert_resource_policy
policy-AreInScope a [] e h = inl e
policy-AreInScope a (b ∷ bs) e h =
    let (args, found, checks) =
      >>=-eq-ok (or_fail (decode_args a.arguments) invalid_arguments)
        (λ args. each (check_binding args) (b ∷ bs)) h in
    inr (
      args,
      or_fail-eq-ok (decode_args a.arguments) invalid_arguments found,
      subst (All (IsInScope args)) (sym e) (
          All-map _ _ (b ∷ bs) (λ x k. check_binding-IsInScope args x k)
            (each-eq-ok (check_binding args) (b ∷ bs) checks)),
    )
