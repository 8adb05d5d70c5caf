-- ===== src/Dispatch/Teardown.antt =====
-- The teardown of a stream in control-plane/internal/dispatch/service.go (`markClosed`, then
-- `sendWG.Wait`) against the calls of `send` in flight.
use iterabase_mono.Common.{
  ℕ, zero, suc, ◌<◌, ◌≡◌, refl, true, false, some, List, [], ◌∷◌, arith, get_elem?, inl, inr,
  Bool-cases,
}
use native.Mathlib.Decide.{dec_lt}
use iterabase_mono.Dispatch.Sending.{
  Phase, registered, locked, sending, leaving, returned, Guard, Step, lock, give_up, finish, done,
  mark_closed, tear_down, Reach, here, next, weight, holding, sum_of, sum_of-set, Inv, Step-Inv,
  Reach-Inv, fresh, fresh-Inv,
}

find :
    (f : Phase → ℕ) (ps : List Phase)
    → 0 < sum_of f ps
    → (t : ℕ) × (p : Phase) × (get_elem? ps t ≡ some p) × (0 < f p)
find f [] h = absurd (omega arith)
find f (p ∷ ps) h = elim (dec_lt 0 (f p)) [
  | yes q ↦ (0, p, refl, q)
  | no q ↦ let (t, p', e, r) = find f ps (omega arith) in (suc t, p', e, r)
]

-- The steps that a call has left.
abbrev todo : Phase → ℕ
todo registered = 3
todo locked = 2
todo sending = 2
todo leaving = 1
todo _ = 0

-- One more step of some call in flight.
abbrev Advances : Guard → Type 0
Advances g =
    (h : Guard) × Step g h × (h.closed ≡ true) × (sum_of todo h.phases < sum_of todo g.phases)

advance_holder :
    (g : Guard) (t : ℕ) (p : Phase)
    → g.closed ≡ true
    → get_elem? g.phases t ≡ some p
    → 0 < holding p
    → Advances g
advance_holder g t locked c e h =
    (_, give_up t e c, c, omega (arith, sum_of-set todo g.phases t locked leaving e))
advance_holder g t sending c e h =
    (_, finish t e, c, omega (arith, sum_of-set todo g.phases t sending leaving e))
advance_holder g t _ c e h = absurd (omega arith)

advance_any :
    (g : Guard) (t : ℕ) (p : Phase)
    → Inv g
    → g.closed ≡ true
    → get_elem? g.phases t ≡ some p
    → 0 < weight p
    → Advances g
advance_any g t registered v c e h = elim (Bool-cases g.send_mu) [
  | inl held ↦
      let (u, q, e', r) = find holding g.phases (ground (arith, v.exclusive)) in
      advance_holder g u q c e' r
  | inr free ↦ (_, lock t e free, c, omega (arith, sum_of-set todo g.phases t registered locked e))
]
advance_any g t locked v c e h = advance_holder g t locked c e (omega arith)
advance_any g t sending v c e h = advance_holder g t sending c e (omega arith)
advance_any g t leaving v c e h =
    (_, done t e, c, omega (arith, sum_of-set todo g.phases t leaving returned e))
advance_any g t _ v c e h = absurd (omega arith)

Reach-trans : {g h k : Guard} → Reach g h → Reach h k → Reach g k
Reach-trans r here = r
Reach-trans r (next s st) = next (Reach-trans r s) st

drain :
    (n : ℕ) (g : Guard)
    → Inv g
    → g.closed ≡ true
    → sum_of todo g.phases < n
    → (h : Guard) × Reach g h × (h.stream_open ≡ false)
drain zero g v c m = absurd (omega arith)
drain (suc n) g v c m = elim (dec_lt 0 g.send_wg) [
  | no q ↦ (record g { stream_open = false }, next here (tear_down c (omega arith)), refl)
  | yes q ↦
      let (t, p, e, w) = find weight g.phases (omega (arith, v.counted)) in
      let (h, st, c', less) = advance_any g t p v c e w in
      let (k, r, ended) = drain n h (Step-Inv st v) c' (omega arith) in
      (k, Reach-trans (next here st) r, ended)
]

-- From every state that a fresh connection can reach, some further interleaving lets the teardown end
-- with the stream closed.
pub teardown_possible :
    (n : ℕ) (g : Guard) → Reach (fresh n) g → (h : Guard) × Reach g h × (h.stream_open ≡ false)
teardown_possible n g r =
    let v = Reach-Inv r (fresh-Inv n) in
    let g' : Guard = record g { closed = true } in
    let (h, s, ended) =
      drain (suc (sum_of todo g.phases)) g' (Step-Inv mark_closed v) refl (omega arith) in
    (h, Reach-trans (next here mark_closed) s, ended)
