-- ===== src/Dispatch/Gates.antt =====
-- The workspace gates of control-plane/internal/dispatch/workerpool.go: a status that closes its pool's
-- gate, and what is handed out after it.
use iterabase_mono.Common.{
  ℕ, String, ◌≡◌, refl, sym, ap, ◌∙◌, subst, ◌≢◌, inl, inr, Bool, true, false, Option, none, some,
  List, [], ◌∷◌, arith, eq_iff, Bool-cases, ◌==ₛ◌, ◌==◌, if◌then◌else◌,
}
use iterabase_mono.Common.Dict.{lookup, insert, lookup-insert}
use native.Mathlib.Decide.{ℕ_discrete}
use iterabase_mono.Dispatch.Conn.{WorkerConn, Status, apply_workspace_status}
use iterabase_mono.Dispatch.Credit.{IsValid, status, step, step-IsValid}
use iterabase_mono.Dispatch.Pool.{
  Heap, update, WorkerPool, apply_to_conns, publish_workspace_status, pick_idle,
}
use iterabase_mono.Dispatch.Picking.{Holds, update_self, update-ne, pick_idle-Picks}

-- The effect of one update on one worker.
apply_gated :
    (now : ℕ) (s : Status) (own : Bool) (w : WorkerConn)
    → s.gated ≡ true
    → IsValid w
    → ((apply_workspace_status now s own w).0.idle ≡ false)
      × IsValid (apply_workspace_status now s own w).0
      × ((apply_workspace_status now s own w).0.pool_id ≡ w.pool_id)
unfolding apply_workspace_status
apply_gated now s own w g v = (
  ground (arith, eq_iff w.active_turn ""),
  (unfold step in step-IsValid w (status now s own) tt v),
  refl,
)

-- Among the workers of the gated pool, those of `conns` are idle no more; the rest keeps.
record Gated (pool_id : String) (conns : List (String × ℕ)) (h h' : Heap) : Type 0 where
  valid : (b : ℕ) → IsValid (h' b)
  same_pool : (b : ℕ) → (h' b).pool_id ≡ (h b).pool_id
  still : (b : ℕ) → (h b).idle ≡ false → (h' b).idle ≡ false
  stopped : (b : ℕ) → Holds b conns → (h b).pool_id ≡ pool_id → (h' b).idle ≡ false
  others : (b : ℕ) → (h b).pool_id ≢ pool_id → h' b ≡ h b

-- A worker of another pool is passed over.
Gated-skip :
    (pool_id k : String) (a : ℕ) (conns : List (String × ℕ)) (h h' : Heap)
    → (h a).pool_id ≢ pool_id
    → Gated pool_id conns h h'
    → Gated pool_id ((k, a) ∷ conns) h h'
Gated-skip pool_id k a conns h h' other r = record {
  valid = r.valid;
  same_pool = r.same_pool;
  still = r.still;
  stopped = λ b. elim [
    | inl same ↦ λ e. absurd (other (ap (λ c. (h c).pool_id) same ∙ e))
    | inr later ↦ r.stopped b later
  ];
  others = r.others;
}

-- What updating `a` alone does.
record Updates (a : ℕ) (h h₁ : Heap) : Type 0 where
  valid : (b : ℕ) → IsValid (h₁ b)
  same_pool : (b : ℕ) → (h₁ b).pool_id ≡ (h b).pool_id
  still : (b : ℕ) → (h b).idle ≡ false → (h₁ b).idle ≡ false
  now_off : (h₁ a).idle ≡ false
  others : (b : ℕ) → b ≢ a → h₁ b ≡ h b

update-Updates :
    (now : ℕ) (s : Status) (own : Bool) (h : Heap) (a : ℕ)
    → s.gated ≡ true
    → ((b : ℕ) → IsValid (h b))
    → Updates a h (update h a (apply_workspace_status now s own (h a)).0)
update-Updates now s own h a g v =
    let (off, valid, kept) = apply_gated now s own (h a) g (v a) in
    let w = (apply_workspace_status now s own (h a)).0 in
    record {
      valid = λ b. elim (ℕ_discrete b a) [
        | yes e ↦ rw e (rw (update_self h a w) valid)
        | no d ↦ rw (update-ne h a b w d) (v b)
      ];
      same_pool = λ b. elim (ℕ_discrete b a) [
        | yes e ↦ rw e (rw (update_self h a w) kept)
        | no d ↦ rw (update-ne h a b w d)
      ];
      still = λ b i. elim (ℕ_discrete b a) [
        | yes e ↦ rw e (rw (update_self h a w) off)
        | no d ↦ rw (update-ne h a b w d) i
      ];
      now_off = rw (update_self h a w) off;
      others = λ b d. update-ne h a b w d;
    }

Gated-step :
    (pool_id k : String) (a : ℕ) (conns : List (String × ℕ)) (h h₁ h' : Heap)
    → (h a).pool_id ≡ pool_id
    → Updates a h h₁
    → Gated pool_id conns h₁ h'
    → Gated pool_id ((k, a) ∷ conns) h h'
Gated-step pool_id k a conns h h₁ h' mine u r = record {
  valid = r.valid;
  same_pool = λ b. r.same_pool b ∙ u.same_pool b;
  still = λ b i. r.still b (u.still b i);
  stopped = λ b. elim [
    | inl same ↦ λ e. subst (λ c. (h' c).idle ≡ false) same (r.still a u.now_off)
    | inr later ↦ λ e. r.stopped b later (u.same_pool b ∙ e)
  ];
  others = λ b d.
      r.others b (λ e. d (sym (u.same_pool b) ∙ e))
      ∙ u.others b (λ e. d (ap (λ c. (h c).pool_id) e ∙ mine));
}

apply_to_conns-Gated :
    (now : ℕ) (s : Status) (source : ℕ) (pool_id : String) (conns : List (String × ℕ)) (h : Heap)
    → s.gated ≡ true
    → ((b : ℕ) → IsValid (h b))
    → Gated pool_id conns h (apply_to_conns now s source pool_id conns h).0
unfolding apply_to_conns
apply_to_conns-Gated now s source pool_id [] h g v = record {
  valid = v;
  same_pool = λ b. refl;
  still = λ b e. e;
  stopped = λ b held e. absurd held;
  others = λ b d. refl;
}
apply_to_conns-Gated now s source pool_id ((k, a) ∷ conns) h g v =
    elim (Bool-cases ((h a).pool_id ==ₛ pool_id)) [
      | inr other ↦ rw other (
          Gated-skip pool_id k a conns h _ (λ e. ground (arith, eq_iff (h a).pool_id pool_id))
            (apply_to_conns-Gated now s source pool_id conns h g v))
      | inl same ↦
          let u = update-Updates now s (a == source) h a g v in
          rw same (
            Gated-step pool_id k a conns h _ _ ((eq_iff _ _).0 same) u
              (apply_to_conns-Gated now s source pool_id conns _ g u.valid))
    ]

-- Once a gated status is published while every connection is valid, its pool hands out no worker, and
-- its gate is shut; the other pools' workers and the other gates are as they were.
pub publish-gated :
    (now : ℕ) (s : Status) (source : ℕ) (p : WorkerPool) (turn_id : String)
    → s.gated ≡ true
    → ((b : ℕ) → IsValid (p.heap b))
    → let p' = (publish_workspace_status now s source p).0 in
      let pool_id = (p.heap source).pool_id in
      ((pick_idle pool_id turn_id p').1 ≡ none)
      × ((b : ℕ) → (p.heap b).pool_id ≢ pool_id → p'.heap b ≡ p.heap b)
      × ((k : String) → lookup k p'.gates ≡ (if pool_id ==ₛ k then some true else lookup k p.gates))
unfolding publish_workspace_status
publish-gated now s source p turn_id g v = (
  elim (pick_idle-Picks pool_id turn_id q).0 [
    | inl (nobody, e) ↦ ap (λ (x : Heap × Option ℕ). x.1) e
    | inr (b, held, ready, e) ↦
        let off = r.stopped b held (sym (r.same_pool b) ∙ ready.in_pool) in cc (off, ready.idle)
  ],
  r.others,
  λ k. rw lookup-insert (rw g),
)
  where
    pool_id : String
    pool_id = (p.heap source).pool_id

    r : Gated pool_id p.conns p.heap (apply_to_conns now s source pool_id p.conns p.heap).0
    r = apply_to_conns-Gated now s source pool_id p.conns p.heap g v

    q : WorkerPool
    q = record p {
      gates = insert pool_id s.gated p.gates;
      heap = (apply_to_conns now s source pool_id p.conns p.heap).0;
    }
