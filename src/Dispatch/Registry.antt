-- ===== src/Dispatch/Registry.antt =====
-- add, remove and get of control-plane/internal/dispatch/workerpool.go: reconnects and teardowns.
use iterabase_mono.Common.{
  ℕ, String, ◌≡◌, refl, sym, ap, ◌∙◌, ◌≢◌, inl, inr, false, Option, none, some, arith, Option-cases,
  ◌==ₛ◌, ==_self, if◌then◌else◌,
}
use text.Mathlib.TextPositions.{eq_refl}
use iterabase_mono.Common.Dict.{lookup, insert, delete, lookup-insert, lookup-delete}
use iterabase_mono.Dispatch.Conn.{WorkerConn}
use iterabase_mono.Dispatch.Pool.{WorkerPool, key_of, is_conn, or_gated, add, remove, get}
use iterabase_mono.Dispatch.Picking.{update_self, update-ne}

heap-add_self :
    (a : ℕ) (p : WorkerPool)
    → (add a p).0.heap a
      ≡ record (p.heap a) { workspace_gated = or_gated (lookup (p.heap a).pool_id p.gates) }
unfolding add
heap-add_self a p = update_self p.heap a _

heap-add_ne : (a b : ℕ) (p : WorkerPool) → b ≢ a → (add a p).0.heap b ≡ p.heap b
unfolding add
heap-add_ne a b p d = update-ne p.heap a b _ d

-- A new connection is the registered one; the one that it replaced is handed to the caller; and it
-- starts gated unless its pool's gate is known to be open.
pub get-add :
    (a : ℕ) (p : WorkerPool)
    → let w = p.heap a in
      let (p', old) = add a p in
      (get w.pool_id w.worker_id p' ≡ some a)
      × (old ≡ get w.pool_id w.worker_id p)
      × ((p'.heap a).workspace_gated ≡ false → lookup w.pool_id p.gates ≡ some false)
unfolding add get
get-add a p = (
  rw lookup-insert (rw eq_refl),
  refl,
  λ g. elim (Option-cases (lookup (p.heap a).pool_id p.gates)) [
    | inl e ↦ let c = ap or_gated (sym e) ∙ gate g in cc c
    | inr (open_gate, e) ↦ e ∙ ap some (ap or_gated (sym e) ∙ gate g)
  ],
)
  where
    gate :
        ((add a p).0.heap a).workspace_gated ≡ false
        → or_gated (lookup (p.heap a).pool_id p.gates) ≡ false
    gate g = sym (ap (λ (w : WorkerConn). w.workspace_gated) (heap-add_self a p)) ∙ g

remove_other :
    (a : ℕ) (p : WorkerPool)
    → is_conn (lookup (key_of (p.heap a)) p.conns) a ≡ false
    → remove a p ≡ p
unfolding remove
remove_other a p e = rw e

remove_own :
    (a : ℕ) (p : WorkerPool)
    → lookup (key_of (p.heap a)) p.conns ≡ some a
    → remove a p ≡ record p { conns = delete (key_of (p.heap a)) p.conns }
unfolding remove
remove_own a p e = rw e (rw (==_self a))

-- The removal of another connection with the same key, after the new one was added, changes nothing.
pub remove-fenced :
    (a old : ℕ) (p : WorkerPool)
    → old ≢ a
    → key_of (p.heap old) ≡ key_of (p.heap a)
    → remove old (add a p).0 ≡ (add a p).0
unfolding add
remove-fenced a old p d k =
    remove_other old (add a p).0
      (rw (heap-add_ne a old p d) (ap (λ (x : Option ℕ). is_conn x old) own ∙ ground arith))
  where
    own : lookup (key_of (p.heap old)) (insert (key_of (p.heap a)) a p.conns) ≡ some a
    own = rw k (rw lookup-insert (rw eq_refl))

-- The removal of the registered connection leaves its key free, and every other key as it was.
pub lookup-remove :
    (a : ℕ) (p : WorkerPool) (key : String)
    → lookup (key_of (p.heap a)) p.conns ≡ some a
    → lookup key (remove a p).conns
      ≡ (if key_of (p.heap a) ==ₛ key then none else lookup key p.conns)
lookup-remove a p key e = rw (remove_own a p e) (lookup-delete _ key p.conns)
