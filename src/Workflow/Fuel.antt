-- ===== src/Workflow/Fuel.antt =====
-- How deep the parts of a schema nest that collectResultSchemaFields
-- (control-plane/internal/workflow/graph.go) takes out of it.
use Prim.Native.String.{compare}
use text.Mathlib.Text.{is_le}
use iterabase_mono.Common.{
  ℕ, ◌≤◌, String, ◌≡◌, subst, inl, inr, some, List, [], ◌∷◌, ◌==ₛ◌, All, arith, Bool-cases,
  Option-cases,
}
use iterabase_mono.Common.Dict.{insert, sort_keys, insert_sorted}
use iterabase_mono.Workflow.Json.{
  Json, Fields, value, object, field, end, merge, decode_map, map_into, member, same_name,
}
use iterabase_mono.Workflow.Depth.{depth, depth_fields}

-- Every value of a map nests at most `d` deep.
abbrev pub Within : ℕ → List (String × Json) → Type 0
Within d m = All (λ (e : String × Json). depth e.1 ≤ d) m

Within-insert :
    (d : ℕ) (k : String) (v : Json) (m : List (String × Json))
    → depth v ≤ d
    → Within d m
    → Within d (insert k v m)
unfolding insert
Within-insert d k v [] h w = (h, tt)
Within-insert d k v ((j, u) ∷ m) h w = elim (Bool-cases (j ==ₛ k)) [
  | inl same ↦ rw same (h, w.1)
  | inr other ↦ rw other (w.0, Within-insert d k v m h w.1)
]

pub Within-merge :
    (d : ℕ) (fs : Fields) (m : List (String × Json))
    → depth_fields fs ≤ d
    → Within d m
    → Within d (merge fs m)
unfolding merge depth
Within-merge d end m h w = w
Within-merge d (field k v fs) m h w =
    Within-merge d fs (insert k v m) (omega (arith, h)) (Within-insert d k v m (omega (arith, h)) w)

Within-insert_sorted :
    (d : ℕ) (e : String × Json) (m : List (String × Json))
    → depth e.1 ≤ d
    → Within d m
    → Within d (insert_sorted e m)
unfolding insert_sorted
Within-insert_sorted d e [] h w = (h, tt)
Within-insert_sorted d e (c ∷ m) h w = elim (Bool-cases (is_le (compare e.0 c.0))) [
  | inl before ↦ rw before (h, w)
  | inr past ↦ rw past (w.0, Within-insert_sorted d e m h w.1)
]

pub Within-sort_keys : (d : ℕ) (m : List (String × Json)) → Within d m → Within d (sort_keys m)
unfolding sort_keys
Within-sort_keys d [] w = tt
Within-sort_keys d (e ∷ m) w = Within-insert_sorted d e (sort_keys m) w.0 (Within-sort_keys d m w.1)

pub map_into-Within :
    (d : ℕ) (v : Json) (m n : List (String × Json))
    → depth v ≤ d
    → Within d m
    → map_into v m ≡ some n
    → Within d n
unfolding map_into depth
map_into-Within d Json.null m n h w e = let q : [] ≡ n = ground (arith, e) in subst (Within d) q tt
map_into-Within d (object gs) m n h w e =
    let q : merge gs m ≡ n = ground (arith, e) in
    subst (Within d) q (Within-merge d gs m (omega (arith, h)) w)
map_into-Within d Json.spaced m n h w e = let q : m ≡ n = ground (arith, e) in subst (Within d) q w
map_into-Within d _ m n h w e = cc

pub member-Within :
    (d : ℕ) (tag : String) (fs : Fields) (m n : List (String × Json))
    → depth_fields fs ≤ d
    → Within d m
    → member map_into tag fs m ≡ some n
    → Within d n
unfolding member depth
member-Within d tag end m n h w e = let q : m ≡ n = ground (arith, e) in subst (Within d) q w
member-Within d tag (field k v fs) m n h w e = elim (Bool-cases (same_name k tag)) [
  | inr other ↦
      let q : member map_into tag fs m ≡ some n = rw (other, member) at e in
      member-Within d tag fs m n (omega (arith, h)) w q
  | inl same ↦ elim (Option-cases (map_into v m)) [
    | inl bad ↦ let q = rw (same, bad, member) at e in absurd (cc q)
    | inr (m', good) ↦
        let q : member map_into tag fs m' ≡ some n = rw (same, good, member) at e in
        member-Within d tag fs m' n (omega (arith, h))
          (map_into-Within d v m m' (omega (arith, h)) w good) q
  ]
]

pub decode_map-Within :
    (j : Json) (m : List (String × Json)) → decode_map (value j) ≡ some m → Within (depth j) m
unfolding decode_map depth
decode_map-Within (object fs) m e =
    let q : merge fs [] ≡ m = ground (arith, e) in
    subst (Within (depth (object fs))) q (Within-merge (depth (object fs)) fs [] (omega arith) tt)
decode_map-Within Json.spaced m e = let q : [] ≡ m = ground (arith, e) in subst (Within 0) q tt
decode_map-Within Json.null m e = let q : [] ≡ m = ground (arith, e) in subst (Within 0) q tt
decode_map-Within _ m e = cc
