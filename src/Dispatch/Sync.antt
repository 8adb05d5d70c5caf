-- ===== src/Dispatch/Sync.antt =====
-- syncWorkspaceCapacity of control-plane/internal/dispatch/workerpool.go: the in-memory gates
-- against the durable rows.
use iterabase_mono.Common.{
  String, ◌≡◌, refl, ◌∙◌, subst, inl, inr, Bool, not, ◌&&◌, ◌||◌, Option, none, some, List, [], ◌∷◌,
  ◌++◌, arith, eq_iff, Bool-cases, Option-cases, ◌==ₛ◌, contains, contains-append,
}
use iterabase_mono.Common.Dict.{
  lookup, insert, delete, lookup-insert, lookup-delete, IsMap, is_none,
}
use iterabase_mono.Dispatch.Pool.{
  WorkerPool, WorkspaceCapacityState, fresh_credit_gated, seed_gates, prune,
  sync_workspace_capacity,
}

-- The gate of a pool with a durable row, or else the one it had.
abbrev pub gate_of : Option WorkspaceCapacityState → Option Bool → Option Bool
gate_of none gate = gate
gate_of (some s) gate = some (fresh_credit_gated s)

lookup-seed_gates :
    (states : List (String × WorkspaceCapacityState)) (gates : List (String × Bool)) (k : String)
    → IsMap states
    → lookup k (seed_gates states gates) ≡ gate_of (lookup k states) (lookup k gates)
unfolding seed_gates lookup
lookup-seed_gates [] gates k m = refl
lookup-seed_gates ((j, s) ∷ states) gates k m =
    lookup-seed_gates states (insert j (fresh_credit_gated s) gates) k m.1
    ∙ elim (Bool-cases (j ==ₛ k)) [
      | inl same ↦
          let e : lookup k states ≡ none =
            subst (λ x. lookup x states ≡ none) ((eq_iff j k).0 same) m.0 in
          rw (same, e, lookup-insert) (rw same)
      | inr other ↦ rw (other, lookup-insert) (rw other)
    ]

prune_dropped :
    (states : List (String × WorkspaceCapacityState)) (ks gates : List (String × Bool))
    (removed : List String) (j : String)
    → lookup j states ≡ none
    → (lookup j ks ≡ none → lookup j gates ≡ none)
    → lookup j (prune states ks gates removed).0 ≡ none
unfolding prune lookup
prune_dropped states [] gates removed j gone h = h refl
prune_dropped states ((k, g) ∷ ks) gates removed j gone h = elim (Option-cases (lookup k states)) [
  | inl e ↦
      rw (e, prune)
        (prune_dropped states ks (delete k gates) (removed ++ k ∷ []) j gone (λ e'.
          rw lookup-delete (elim (Bool-cases (k ==ₛ j)) [
            | inl same ↦ rw same
            | inr other ↦ rw other (h (rw other e'))
          ])))
  | inr (s, e) ↦
      rw (e, prune)
        (prune_dropped states ks gates removed j gone (λ e'. h (elim (Bool-cases (k ==ₛ j)) [
          | inl same ↦
              let c = subst (λ x. lookup x states ≡ some s) ((eq_iff k j).0 same) e in cc (c, gone)
          | inr other ↦ rw other e'
        ])))
]

-- The pools that the loop reports.
prune_removed :
    (states : List (String × WorkspaceCapacityState)) (ks gates : List (String × Bool))
    (removed : List String) (j : String)
    → contains (prune states ks gates removed).1 j
      ≡ (contains removed j || (not (is_none (lookup j ks)) && is_none (lookup j states)))
unfolding prune lookup
prune_removed states [] gates removed j = ground arith
prune_removed states ((k, g) ∷ ks) gates removed j = elim (Option-cases (lookup k states)) [
  | inl e ↦
      rw (e, prune)
        (prune_removed states ks (delete k gates) (removed ++ k ∷ []) j
          ∙ rw (contains-append removed (k ∷ []) j) (elim (Bool-cases (k ==ₛ j)) [
            | inl same ↦
                let c = subst (λ x. lookup x states ≡ none) ((eq_iff k j).0 same) e in
                rw (same, c) (ground arith)
            | inr other ↦ rw other (ground arith)
          ]))
  | inr (s, e) ↦
      rw (e, prune)
        (prune_removed states ks gates removed j ∙ elim (Bool-cases (k ==ₛ j)) [
          | inl same ↦
              let c = subst (λ x. lookup x states ≡ some s) ((eq_iff k j).0 same) e in
              rw (same, c) (ground arith)
          | inr other ↦ rw other refl
        ])
]

-- After a sync with rows of distinct pools the gates are the durable rows' and nothing else, whatever
-- they were before; the pools reported as removed are those that had a gate and have no row; and the
-- connections are as they were.
pub lookup-sync :
    (states : List (String × WorkspaceCapacityState)) (p : WorkerPool) (k : String)
    → IsMap states
    → let (p', removed) = sync_workspace_capacity states p in
      (lookup k p'.gates ≡ gate_of (lookup k states) none)
      × (contains removed k ≡ (not (is_none (lookup k p.gates)) && is_none (lookup k states)))
      × (p'.conns ≡ p.conns)
unfolding sync_workspace_capacity
lookup-sync states p k m = (
  lookup-seed_gates states (prune states p.gates p.gates []).0 k m
      ∙ elim (Option-cases (lookup k states)) [
        | inl e ↦ rw e (prune_dropped states p.gates p.gates [] k e (λ h. h))
        | inr (s, e) ↦ rw e
      ],
  prune_removed states p.gates p.gates [] k,
  refl,
)
