-- ===== src/Gateway/Exact.antt =====
-- The checks of InvokeTool in control-plane/internal/gateway/service.go refuse no more than they have to.
use mathlib.Core.Bool.{true≢false}
use iterabase_mono.Common.{
  String, ◌≡◌, refl, sym, ap, ◌∙◌, subst, ◌⊎◌, inl, inr, true, false, not, ◌&&◌, ◌||◌, Option, none,
  some, List, [], ◌∷◌, arith, All, Bool-cases, ◌==ₛ◌, contains, eq_iff,
}
use iterabase_mono.Common.Dict.{lookup}
use iterabase_mono.Common.Result.{Result, ok, Result-cases, each}
use iterabase_mono.Workflow.Json.{
  Json, null, boolean, number, string, array, object, spaced, Raw, is_trivial,
}
use iterabase_mono.Gateway.Ledger.{ToolVersion, InvocationKey, Ledger}
use iterabase_mono.Gateway.Dispatching.{Config, Call, execute_invocation}
use iterabase_mono.Gateway.Policy.{
  Capability, lists_action, none_listed, capability_allows_action, exceeds, check_capability,
  find_capability, authorize_workflow_capability, authorize, resource_allowed, named_value,
  check_dimension, check_binding, assert_resource_policy, Admission, denied, invoke_tool,
}
use iterabase_mono.Gateway.Admitted.{
  Allows, IsBelow, IsFirst, IsPermitted, IsAuthorized, IsInScope, AreInScope, All-map,
  authorize-IsAuthorized, policy-AreInScope,
}

contains-lists_action :
    (action : String) (actions : List String)
    → (contains actions action ≡ true) ⊎ (contains actions "*" ≡ true)
    → lists_action action actions ≡ true
unfolding lists_action
contains-lists_action action [] h = ground (arith, h)
contains-lists_action action (x ∷ xs) h = elim (Bool-cases (lists_action action xs)) [
  | inl later ↦ ground (arith, later)
  | inr none_later ↦ elim (Bool-cases (x ==ₛ action || x ==ₛ "*")) [
    | inl this ↦ ground (arith, this)
    | inr other ↦
        absurd (
          true≢false
            (sym (contains-lists_action action xs (ground (arith, h, other))) ∙ none_later))
  ]
]

Allows-allowed :
    (actions : List String) (tv : ToolVersion)
    → Allows actions tv
    → not (none_listed actions || lists_action tv.name actions) ≡ false
Allows-allowed [] tv h = refl
Allows-allowed (x ∷ xs) tv (inl e) = cc
Allows-allowed (x ∷ xs) tv (inr h) = ap not (contains-lists_action tv.name (x ∷ xs) h)

IsBelow-exceeds :
    (tv : ToolVersion) (ceiling : String) → IsBelow tv ceiling → exceeds tv ceiling ≡ false
IsBelow-exceeds tv ceiling h = ground (arith, h)

ceiling-passed :
    (cap : Capability) (tv : ToolVersion)
    → (cap.max_effect_class ≡ "") ⊎ IsBelow tv cap.max_effect_class
    → (not (cap.max_effect_class ==ₛ "") && exceeds tv cap.max_effect_class) ≡ false
ceiling-passed cap tv (inl e) = rw ((eq_iff cap.max_effect_class "").1 e) refl
ceiling-passed cap tv (inr h) = elim (Bool-cases (cap.max_effect_class ==ₛ "")) [
  | inl unset ↦ rw unset refl
  | inr set ↦ rw set (IsBelow-exceeds tv cap.max_effect_class h)
]

allowed-check_capability :
    (cap : Capability) (tv : ToolVersion)
    → (cap.max_effect_class ≡ "") ⊎ IsBelow tv cap.max_effect_class
    → Allows cap.actions tv
    → check_capability cap tv ≡ ok tt
unfolding check_capability capability_allows_action
allowed-check_capability cap tv ceiling action =
    rw (ceiling-passed cap tv ceiling, Allows-allowed cap.actions tv action) refl

IsFirst-find_capability :
    (caps : List Capability) (tv : ToolVersion) (cap : Capability)
    → IsFirst cap caps tv
    → check_capability cap tv ≡ ok tt
    → find_capability caps tv ≡ ok tt
unfolding find_capability
IsFirst-find_capability [] tv cap first h = absurd first
IsFirst-find_capability (x ∷ xs) tv cap (inl (same, own)) h =
    rw ((eq_iff x.tool tv.name).1 own, same) h
IsFirst-find_capability (x ∷ xs) tv cap (inr (other, later)) h =
    rw other (IsFirst-find_capability xs tv cap later h)

IsPermitted-authorized :
    (permitted : Option (List Capability)) (tv : ToolVersion)
    → ((caps : List Capability) → permitted ≡ some caps → IsPermitted caps tv)
    → authorize_workflow_capability permitted tv ≡ ok tt
unfolding authorize_workflow_capability
IsPermitted-authorized none tv h = refl
IsPermitted-authorized (some caps) tv h =
    let (cap, first, ceiling, action) = h caps refl in
    IsFirst-find_capability caps tv cap first (allowed-check_capability cap tv ceiling action)

IsAuthorized-authorize :
    (a : Admission) (tv : ToolVersion)
    → IsAuthorized a tv
    → authorize a.permitted a.grant tv ≡ ok tt
unfolding authorize
IsAuthorized-authorize a tv h =
    let (g, granted, effect, action) = h.granted in
    rw
      (
        IsPermitted-authorized a.permitted tv h.permitted,
        granted,
        IsBelow-exceeds tv g.max_effect_class effect,
        Allows-allowed g.allowed_actions tv action,
      )
      refl

All-each {ℓ κ} :
    {E : Type ℓ} {A : Type κ} (f : A → Result E (Unit {0})) (xs : List A)
    → All (λ x. f x ≡ ok tt) xs
    → each f xs ≡ ok tt
unfolding each
All-each f [] h = refl
All-each f (x ∷ xs) h = rw h.0 (All-each f xs h.1)

named-cases :
    (o : Option Json) → (named_value o ≡ none) ⊎ ((val : String) × (o ≡ some (string val)))
named-cases none = inl refl
named-cases (some null) = inl refl
named-cases (some (boolean b)) = inl refl
named-cases (some (number n)) = inl refl
named-cases (some (string s)) = inr (s, refl)
named-cases (some (array js)) = inl refl
named-cases (some (object fs)) = inl refl
named-cases (some spaced) = inl refl

allowed-check_dimension :
    (args : List (String × Json)) (slot : String) (c : String × Json)
    → ((val : String) → lookup c.0 args ≡ some (string val) → resource_allowed c.1 val ≡ true)
    → check_dimension args slot c ≡ ok tt
unfolding check_dimension
allowed-check_dimension args slot (dim, allowed) h = elim (named-cases (lookup dim args)) [
  | inl unnamed ↦ rw (unnamed, check_dimension) refl
  | inr (val, found) ↦ rw (found, check_dimension, h val found) refl
]

IsInScope-check_binding :
    (args : List (String × Json)) (b : String × Raw)
    → IsInScope args b
    → check_binding args b ≡ ok tt
unfolding check_binding
IsInScope-check_binding args (slot, raw) (inl skipped) = rw skipped refl
IsInScope-check_binding args (slot, raw) (inr (constraints, found, allowed)) =
    elim (Bool-cases (is_trivial raw)) [
      | inl skipped ↦ rw skipped refl
      | inr narrows ↦
          rw (narrows, found)
            (All-each (check_dimension args slot) constraints
              (All-map _ _ constraints (λ c k. allowed-check_dimension args slot c k) allowed))
    ]

AreInScope-policy :
    (a : Admission) → AreInScope a → assert_resource_policy a.bindings a.arguments ≡ ok tt
unfolding assert_resource_policy
AreInScope-policy a h = policy a.bindings refl h
  where
    policy :
        (bs : List (String × Raw))
        → a.bindings ≡ bs
        → AreInScope a
        → assert_resource_policy bs a.arguments ≡ ok tt
    policy [] e h = refl
    policy (b ∷ bs) e (inl none_bound) = cc
    policy (b ∷ bs) e (inr (args, found, scoped)) = rw found (
        All-each (check_binding args) (b ∷ bs) (
          All-map _ _ (b ∷ bs) (λ x k. IsInScope-check_binding args x k)
            (subst (All (IsInScope args)) e scoped)))

-- A call of InvokeTool is executed if its effect and its action are within the pool's grant and the workflow's
-- capability of the tool, its arguments are within the scope of every credential binding, they fit the schema,
-- its artifact references are allowed and its summary renders. Otherwise one of these is not so, and it is
-- denied, with the ledger as it was and nothing sent.
pub invoke_tool-IsAuthorized :
    (c : Config) (key : InvocationKey) (a : Admission) (call : Call) (l : Ledger)
    → let x = invoke_tool c key a call l in
      let fine = a.fits_schema && a.artifacts_allowed && a.renders in
      ((IsAuthorized a call.tv × AreInScope a × (fine ≡ true))
        × (x ≡ execute_invocation c key call l))
      ⊎ (¬ (IsAuthorized a call.tv × AreInScope a × (fine ≡ true))
          × ((code : String) × (x ≡ denied code l)))
unfolding invoke_tool
invoke_tool-IsAuthorized c key a call l =
    elim (Result-cases (authorize a.permitted a.grant call.tv)) [
      | inl (e, p) ↦ inr (
        λ h. cc (p, IsAuthorized-authorize a call.tv h.0),
        ("permission_denied", rw (p, invoke_tool) refl),
      )
      | inr (done, p) ↦ elim (Bool-cases a.fits_schema) [
        | inr invalid ↦ inr (
          λ h. ground (arith, h.2, invalid),
          ("invalid_arguments", rw (p, invoke_tool, invalid) refl),
        )
        | inl fits ↦ elim (Bool-cases a.artifacts_allowed) [
          | inr foreign ↦ inr (
            λ h. ground (arith, h.2, foreign),
            ("artifact_access_denied", rw (p, invoke_tool, fits, foreign) refl),
          )
          | inl own ↦ elim (Result-cases (assert_resource_policy a.bindings a.arguments)) [
            | inl (e, q) ↦ inr (
              λ h. cc (q, AreInScope-policy a h.1),
              ("permission_denied", rw (p, invoke_tool, fits, own, q) refl),
            )
            | inr (scoped, q) ↦ elim (Bool-cases a.renders) [
              | inr blank ↦ inr (
                λ h. ground (arith, h.2, blank),
                ("consequence_summary_invalid", rw (p, invoke_tool, fits, own, q, blank) refl),
              )
              | inl shown ↦ inl (
                (
                  authorize-IsAuthorized a call.tv p,
                  policy-AreInScope a a.bindings refl q,
                  rw (fits, own, shown) refl,
                ),
                rw (p, invoke_tool, fits, own, q, shown) refl,
              )
            ]
          ]
        ]
      ]
    ]
