-- ===== src/Workflow/Walk.antt =====
-- `walk` of control-plane/internal/workflow/graph.go: breadth-first search over adjacency lists by
-- name. The set `seen` is a list of its members. A round takes a name off the queue; a name is
-- queued once, when it is first seen, so `1 +` the number of listed targets bounds the rounds.
pub mod Correct
use iterabase_mono.Common.{
  ℕ, zero, suc, String, Option, none, some, List, [], ◌∷◌, ◌++◌, length, contains, if◌then◌else◌,
}
use iterabase_mono.Common.Dict.{lookup}

abbrev pub Adjacency : Type 0
Adjacency = List (String × List String)

abbrev or_nil : Option (List String) → List String
or_nil none = []
or_nil (some xs) = xs

-- `adj[cur]`
unfoldable pub neighbours : Adjacency → String → List String
neighbours adj cur = or_nil (lookup cur adj)

pub record Search : Type 0 where
  pub seen : List String
  pub queue : List String

-- The loop over `adj[cur]`.
unfoldable pub scan : List String → Search → Search
scan [] s = s
scan (next ∷ rest) s = scan rest (
    if contains s.seen next
    then s
    else record s { seen = next ∷ s.seen; queue = s.queue ++ next ∷ [] })

unfoldable pub walk_loop : ℕ → Adjacency → Search → List String
unfolding scan neighbours
walk_loop zero adj s = s.seen
walk_loop (suc fuel) adj s = elim s.queue [
  | [] ↦ s.seen
  | cur ∷ queue ↦ walk_loop fuel adj (scan (neighbours adj cur) (record s { queue = queue }))
]

abbrev pub targets : Adjacency → List String
targets [] = []
targets ((_, xs) ∷ adj) = xs ++ targets adj

unfoldable pub walk : String → Adjacency → List String
unfolding walk_loop
walk start adj =
    walk_loop (suc (length (targets adj))) adj (record { seen = start ∷ []; queue = start ∷ [] })
