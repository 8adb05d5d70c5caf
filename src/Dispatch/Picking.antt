-- ===== src/Dispatch/Picking.antt =====
-- pickIdle and activeConn of control-plane/internal/dispatch/workerpool.go: which worker is chosen,
-- and what the choice changes.
use iterabase_mono.Common.{
  ℕ, String, ◌≡◌, refl, sym, ap, ◌∙◌, subst, ◌≢◌, ◌⊎◌, inl, inr, true, false, not, ◌&&◌, Option,
  none, some, List, [], ◌∷◌, arith, eq_iff, Bool-cases, ◌==ₛ◌,
}
use native.Mathlib.Decide.{ℕ_discrete}
use iterabase_mono.Dispatch.Conn.{WorkerConn, try_consume_credit}
use iterabase_mono.Dispatch.Pool.{
  Heap, update, WorkerPool, pick_conn, pick_idle, find_active, active_conn,
}

-- A connection that the map holds.
abbrev pub Holds : ℕ → List (String × ℕ) → Type 0
Holds a [] = ⊥
Holds a ((k, b) ∷ conns) = (b ≡ a) ⊎ Holds a conns

-- A worker of the pool with an unspent, usable credit and no turn.
pub record IsReady (pool_id : String) (w : WorkerConn) : Type 0 where
  pub in_pool : w.pool_id ≡ pool_id
  pub live : w.closed ≡ false
  pub idle : w.idle ≡ true
  pub credit : w.credit_advertised ≡ true
  pub free : w.active_turn ≡ ""

-- A ready worker after its assignment.
abbrev pub engaged : String → WorkerConn → WorkerConn
engaged turn_id w = record w { idle = false; credit_advertised = false; active_turn = turn_id }

-- What `pickIdle` may do to the heap: nothing, where nobody is ready, or put one ready worker of
-- the map to the turn.
abbrev pub Picks : String → String → List (String × ℕ) → Heap → Heap × Option ℕ → Type 0
Picks pool_id turn_id conns h r =
    (((a : ℕ) → Holds a conns → ¬ IsReady pool_id (h a)) × (r ≡ (h, none)))
    ⊎ ((a : ℕ) × Holds a conns
        × IsReady pool_id (h a)
        × (r ≡ (update h a (engaged turn_id (h a)), some a)))

consume-IsReady :
    (pool_id turn_id : String) (w : WorkerConn)
    → w.pool_id ≡ pool_id
    → ((IsReady pool_id w) × (try_consume_credit w turn_id ≡ (engaged turn_id w, true)))
      ⊎ ((¬ IsReady pool_id w) × (try_consume_credit w turn_id ≡ (w, false)))
unfolding try_consume_credit
consume-IsReady pool_id turn_id w e = ground (arith, eq_iff w.active_turn "")

Picks-skip :
    (pool_id turn_id k : String) (a : ℕ) (conns : List (String × ℕ)) (h : Heap)
    (r : Heap × Option ℕ)
    → ¬ IsReady pool_id (h a)
    → Picks pool_id turn_id conns h r
    → Picks pool_id turn_id ((k, a) ∷ conns) h r
Picks-skip pool_id turn_id k a conns h r busy (inl (nobody, e)) = inl (
  λ b. elim [
    | inl same ↦ λ ready. busy (subst (λ c. IsReady pool_id (h c)) (sym same) ready)
    | inr later ↦ nobody b later
  ],
  e,
)
Picks-skip pool_id turn_id k a conns h r busy (inr (b, later, ready, e)) =
    inr (b, inr later, ready, e)

pick_conn-Picks :
    (pool_id turn_id : String) (conns : List (String × ℕ)) (h : Heap)
    → Picks pool_id turn_id conns h (pick_conn pool_id turn_id conns h)
unfolding pick_conn
pick_conn-Picks pool_id turn_id [] h = inl (λ a held. absurd held, refl)
pick_conn-Picks pool_id turn_id ((k, a) ∷ conns) h =
    let rest = pick_conn-Picks pool_id turn_id conns h in
    elim (Bool-cases ((h a).pool_id ==ₛ pool_id)) [
      | inr other ↦ rw other (
          Picks-skip pool_id turn_id k a conns h _
            (λ r. ground (arith, eq_iff (h a).pool_id pool_id, r.in_pool)) rest)
      | inl same ↦ elim (consume-IsReady pool_id turn_id (h a) ((eq_iff _ _).0 same)) [
        | inl (ready, e) ↦ rw (same, e) (inr (a, inl refl, ready, refl))
        | inr (busy, e) ↦ rw (same, e) (Picks-skip pool_id turn_id k a conns h _ busy rest)
      ]
    ]

-- pickIdle either finds no ready worker of the pool among the registered ones and changes nothing, or
-- puts one that is ready to the turn, spends its credit, and changes nothing else.
pub pick_idle-Picks :
    (pool_id turn_id : String) (p : WorkerPool)
    → let (p', picked) = pick_idle pool_id turn_id p in
      Picks pool_id turn_id p.conns p.heap (p'.heap, picked)
      × (p'.conns ≡ p.conns)
      × (p'.gates ≡ p.gates)
unfolding pick_idle
pick_idle-Picks pool_id turn_id p = (pick_conn-Picks pool_id turn_id p.conns p.heap, refl, refl)

-- A live connection of the map that holds the turn.
abbrev pub Serves : String → WorkerConn → Type 0
Serves turn_id w = (w.active_turn ≡ turn_id) × (w.closed ≡ false)

find_active_lem :
    (turn_id : String) (conns : List (String × ℕ)) (h : Heap)
    → ((find_active turn_id conns h ≡ none) × ((a : ℕ) → Holds a conns → ¬ Serves turn_id (h a)))
      ⊎ ((a : ℕ) × (find_active turn_id conns h ≡ some a) × Holds a conns × Serves turn_id (h a))
unfolding find_active
find_active_lem turn_id [] h = inl (refl, λ a held. absurd held)
find_active_lem turn_id ((k, a) ∷ conns) h =
    elim (Bool-cases ((h a).active_turn ==ₛ turn_id && not (h a).closed)) [
      | inl hit ↦ inr (a, rw hit, inl refl, ground (arith, eq_iff (h a).active_turn turn_id))
      | inr miss ↦ elim (find_active_lem turn_id conns h) [
        | inl (e, nobody) ↦ inl (
          rw miss e,
          λ b. elim [
            | inl same ↦ λ s. ground (
              arith,
              eq_iff (h a).active_turn turn_id,
              subst (λ c. Serves turn_id (h c)) (sym same) s,
            )
            | inr later ↦ nobody b later
          ],
        )
        | inr (b, e, later, s) ↦ inr (b, rw miss e, inr later, s)
      ]
    ]

-- A heap in which only `a` serves the turn.
find_active_only :
    (turn_id : String) (conns : List (String × ℕ)) (h : Heap) (a : ℕ)
    → Holds a conns
    → Serves turn_id (h a)
    → ((b : ℕ) → Holds b conns → Serves turn_id (h b) → b ≡ a)
    → find_active turn_id conns h ≡ some a
find_active_only turn_id conns h a held s only = elim (find_active_lem turn_id conns h) [
  | inl (e, nobody) ↦ absurd (nobody a held s)
  | inr (b, e, there, s') ↦ e ∙ ap some (only b there s')
]

pub update_self : (h : Heap) (a : ℕ) (w : WorkerConn) → update h a w a ≡ w
update_self h a w = ground arith

pub update-ne : (h : Heap) (a b : ℕ) (w : WorkerConn) → b ≢ a → update h a w b ≡ h b
update-ne h a b w d = ground arith

-- Where no registered worker served the turn before, an abort of it is routed to the worker that
-- pickIdle put to it.
pub active_conn-pick_idle :
    (pool_id turn_id : String) (p : WorkerPool) (a : ℕ)
    → ((b : ℕ) → Holds b p.conns → ¬ Serves turn_id (p.heap b))
    → (pick_idle pool_id turn_id p).1 ≡ some a
    → active_conn turn_id (pick_idle pool_id turn_id p).0 ≡ some a
unfolding pick_idle active_conn
active_conn-pick_idle pool_id turn_id p a alone e =
    elim (pick_conn-Picks pool_id turn_id p.conns p.heap) [
      | inl (nobody, r) ↦ cc (e, r)
      | inr (b, held, ready, r) ↦
          let same : b ≡ a = ground (arith, e, r) in
          let w = engaged turn_id (p.heap b) in
          rw r (
            find_active_only turn_id p.conns (update p.heap b w) b held
              (rw (update_self p.heap b w) (refl, ready.live))
              (λ c there s. elim (ℕ_discrete c b) [
                | yes q ↦ q
                | no q ↦ absurd (alone c there (rw (update-ne p.heap b c w q) at s))
              ])
            ∙ ap some same)
    ]
