-- ===== src/Workflow/Depth.antt =====
-- How deep a JSON value nests, as the fuel of the schema walk of
-- control-plane/internal/workflow/graph.go.
use Prim.Native.Nat.{max}
use iterabase_mono.Common.{ℕ, suc}
use iterabase_mono.Workflow.Json.{Json, Items, Fields, array, object, nil, cons, end, field}

unfoldable mutual
  pub depth : Json → ℕ
  depth (array js) = suc (depth_items js)
  depth (object fs) = suc (depth_fields fs)
  depth _ = 0

  pub depth_items : Items → ℕ
  depth_items nil = 0
  depth_items (cons j js) = max (depth j) (depth_items js)

  pub depth_fields : Fields → ℕ
  depth_fields end = 0
  depth_fields (field k v fs) = max (depth v) (depth_fields fs)
