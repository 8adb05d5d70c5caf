-- ===== src/Dispatch/Sending.antt =====
-- The send guard that workerConn (control-plane/internal/dispatch/workerpool.go) and runnerConn
-- (control-plane/internal/gateway/runnerpool.go) share, as interleavings of any number of senders
-- with one teardown. Each step is one critical section or one wait of `send`, `markClosed` and the
-- handler's deferred teardown; a sender is an index into `phases`.
use iterabase_mono.Common.{
  ℕ, zero, suc, ◌+◌, ◌-◌, ◌≤◌, ◌≡◌, Bool, true, false, some, List, [], ◌∷◌, arith, get_elem?, set,
  if◌then◌else◌,
}

-- Where a call of `send` stands: before its first check, past `sendWG.Add`, holding `sendMu`,
-- inside `stream.Send`, with `sendMu` unlocked and `sendWG.Done` to come, or returned.
pub data Phase : Type 0 where
  outside registered locked sending leaving returned : Phase

pub record Guard : Type 0 where
  pub closed : Bool
  pub send_wg : ℕ
  pub send_mu : Bool
  pub stream_open : Bool
  pub phases : List Phase

pub data Step (g : Guard) : Guard → Type 0 where
  enter :
      (t : ℕ)
      → get_elem? g.phases t ≡ some outside
      → g.closed ≡ false
      → Step g (record g { send_wg = g.send_wg + 1; phases = set g.phases t registered })
  refuse :
      (t : ℕ)
      → get_elem? g.phases t ≡ some outside
      → g.closed ≡ true
      → Step g (record g { phases = set g.phases t returned })
  lock :
      (t : ℕ)
      → get_elem? g.phases t ≡ some registered
      → g.send_mu ≡ false
      → Step g (record g { send_mu = true; phases = set g.phases t locked })
  write :
      (t : ℕ)
      → get_elem? g.phases t ≡ some locked
      → g.closed ≡ false
      → Step g (record g { phases = set g.phases t sending })
  give_up :
      (t : ℕ)
      → get_elem? g.phases t ≡ some locked
      → g.closed ≡ true
      → Step g (record g { send_mu = false; phases = set g.phases t leaving })
  finish :
      (t : ℕ)
      → get_elem? g.phases t ≡ some sending
      → Step g (record g { send_mu = false; phases = set g.phases t leaving })
  done :
      (t : ℕ)
      → get_elem? g.phases t ≡ some leaving
      → Step g (record g { send_wg = g.send_wg - 1; phases = set g.phases t returned })
  mark_closed : Step g (record g { closed = true })
  tear_down : g.closed ≡ true → g.send_wg ≡ 0 → Step g (record g { stream_open = false })

pub data Reach (g : Guard) : Guard → Type 0 where
  here : Reach g g
  next : {h k : Guard} → Reach g h → Step h k → Reach g k

abbrev pub weight : Phase → ℕ
weight outside = 0
weight returned = 0
weight _ = 1

abbrev pub holding : Phase → ℕ
holding locked = 1
holding sending = 1
holding _ = 0

abbrev pub writing : Phase → ℕ
writing sending = 1
writing _ = 0

abbrev pub sum_of : (Phase → ℕ) → List Phase → ℕ
sum_of f [] = 0
sum_of f (x ∷ xs) = f x + sum_of f xs

pub sum_of-set :
    (f : Phase → ℕ) (ps : List Phase) (t : ℕ) (x y : Phase)
    → get_elem? ps t ≡ some x
    → sum_of f (set ps t y) + f x ≡ sum_of f ps + f y
sum_of-set f [] t x y e = cc
sum_of-set f (p ∷ ps) zero x y e = let q : p ≡ x = ground arith in rw q (omega arith)
sum_of-set f (p ∷ ps) (suc t) x y e = omega (arith, sum_of-set f ps t x y e)

-- `sendWG` counts the calls that have passed the first check, `sendMu` is held by one call at most,
-- and the stream is closed only when both are out of use.
pub record Inv (g : Guard) : Type 0 where
  pub counted : sum_of weight g.phases ≡ g.send_wg
  pub exclusive : sum_of holding g.phases ≡ (if g.send_mu then 1 else 0)
  pub drained : g.stream_open ≡ false → (g.closed ≡ true) × (g.send_wg ≡ 0)

pub Step-Inv : {g h : Guard} → Step g h → Inv g → Inv h
Step-Inv {g} (enter t e c) v = ground (
  arith,
  sum_of-set weight g.phases t outside registered e,
  sum_of-set holding g.phases t outside registered e,
)
Step-Inv {g} (refuse t e c) v = ground (
  arith,
  sum_of-set weight g.phases t outside returned e,
  sum_of-set holding g.phases t outside returned e,
)
Step-Inv {g} (lock t e c) v = ground (
  arith,
  sum_of-set weight g.phases t registered locked e,
  sum_of-set holding g.phases t registered locked e,
)
Step-Inv {g} (write t e c) v = ground (
  arith,
  sum_of-set weight g.phases t locked sending e,
  sum_of-set holding g.phases t locked sending e,
)
Step-Inv {g} (give_up t e c) v = ground (
  arith,
  sum_of-set weight g.phases t locked leaving e,
  sum_of-set holding g.phases t locked leaving e,
)
Step-Inv {g} (finish t e) v = ground (
  arith,
  sum_of-set weight g.phases t sending leaving e,
  sum_of-set holding g.phases t sending leaving e,
)
Step-Inv {g} (done t e) v = ground (
  arith,
  sum_of-set weight g.phases t leaving returned e,
  sum_of-set holding g.phases t leaving returned e,
)
Step-Inv mark_closed v = ground arith
Step-Inv (tear_down c w) v = ground arith

pub Reach-Inv : {g h : Guard} → Reach g h → Inv g → Inv h
Reach-Inv here v = v
Reach-Inv (next r s) v = Step-Inv s (Reach-Inv r v)

writing-le-holding : (ps : List Phase) → sum_of writing ps ≤ sum_of holding ps
writing-le-holding [] = omega arith
writing-le-holding (p ∷ ps) = ground (arith, writing-le-holding ps)

writing-le-weight : (ps : List Phase) → sum_of writing ps ≤ sum_of weight ps
writing-le-weight [] = omega arith
writing-le-weight (p ∷ ps) = ground (arith, writing-le-weight ps)

-- A fresh connection with `n` calls of `send` to come.
abbrev pub all_outside : ℕ → List Phase
all_outside zero = []
all_outside (suc n) = outside ∷ all_outside n

abbrev pub fresh : ℕ → Guard
fresh n = record {
  closed = false;
  send_wg = 0;
  send_mu = false;
  stream_open = true;
  phases = all_outside n;
}

pub fresh-Inv : (n : ℕ) → Inv (fresh n)
fresh-Inv zero = ground arith
fresh-Inv (suc n) =
    let v = fresh-Inv n in
    record {
      counted = omega (arith, v.counted);
      exclusive = omega (arith, v.exclusive);
      drained = v.drained;
    }

-- In every interleaving at most one call is inside `stream.Send`, and none is once the teardown
-- has let the stream close.
pub sends_exclusive :
    (n : ℕ) (g : Guard)
    → Reach (fresh n) g
    → (sum_of writing g.phases ≤ 1) × (g.stream_open ≡ false → sum_of writing g.phases ≡ 0)
sends_exclusive n g r =
    ground
      (arith, Reach-Inv r (fresh-Inv n), writing-le-holding g.phases, writing-le-weight g.phases)
