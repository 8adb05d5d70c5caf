-- ===== src/Common/Dict.antt =====
-- A Go `map[string]V`, as an association list in the order in which a `range` visits it.
use Prim.Native.String.{String, compare}
use mathlib.Core.Path.{◌≡◌, refl, subst₂}
use mathlib.Core.Logic.{inl, inr}
use mathlib.Core.Option.{Option, none, some, some-injective}
use mathlib.Core.Bool.{Bool, true, false, not}
use mathlib.Core.List.{List, [], ◌∷◌}
use native.Mathlib.Omega.{arith}
use text.Mathlib.Text.{is_le}
use text.Mathlib.TextEquality.{eq_iff}
use iterabase_mono.Common.Tests.{◌==ₛ◌, if◌then◌else◌, Bool-cases}
use iterabase_mono.Common.Lists.{All}

abbrev pub is_none {ℓ} : {A : Type ℓ} → Option A → Bool
is_none none = true
is_none (some _) = false

module _ {ℓ} {V : Type ℓ} where
  -- `delete(m, key)`
  unfoldable pub delete : String → List (String × V) → List (String × V)
  delete key [] = []
  delete key ((other, value) ∷ rest) =
      let kept = delete key rest in if other ==ₛ key then kept else (other, value) ∷ kept

  -- `m[key]`, with `none` for a missing key.
  unfoldable pub lookup : String → List (String × V) → Option V
  lookup key [] = none
  lookup key ((other, value) ∷ rest) = if other ==ₛ key then some value else lookup key rest

  abbrev pub has_key : List (String × V) → String → Bool
  has_key m key = not (is_none (lookup key m))

  pub lookup-delete :
      (gone key : String) (m : List (String × V))
      → lookup key (delete gone m) ≡ (if gone ==ₛ key then none else lookup key m)
  unfolding lookup delete
  lookup-delete gone key [] = ground arith
  lookup-delete gone key ((other, value) ∷ rest) =
      ground
        (arith, lookup-delete gone key rest, eq_iff gone key, eq_iff other gone, eq_iff other key)

  -- `m[key] = value`
  unfoldable pub insert : String → V → List (String × V) → List (String × V)
  insert key value [] = (key, value) ∷ []
  insert key value ((other, old) ∷ rest) =
      if other ==ₛ key then (key, value) ∷ rest else (other, old) ∷ insert key value rest

  pub lookup-insert :
      (new key : String) (value : V) (m : List (String × V))
      → lookup key (insert new value m) ≡ (if new ==ₛ key then some value else lookup key m)
  unfolding insert lookup
  lookup-insert new key value [] = refl
  lookup-insert new key value ((other, old) ∷ rest) =
      ground (
        arith,
        lookup-insert new key value rest,
        eq_iff new key,
        eq_iff other new,
        eq_iff other key,
      )

  -- A map holds one entry for a key: no later entry has the key of an earlier one.
  abbrev pub IsMap : List (String × V) → Type ℓ
  IsMap [] = Unit
  IsMap ((k, v) ∷ m) = (lookup k m ≡ none) × IsMap m

-- `sort.Strings` on the keys, each with its value.
module _ {ℓ} {V : Type ℓ} where
  unfoldable pub insert_sorted : String × V → List (String × V) → List (String × V)
  insert_sorted e [] = e ∷ []
  insert_sorted e (d ∷ m) = if is_le (compare e.0 d.0) then e ∷ d ∷ m else d ∷ insert_sorted e m

  unfoldable pub sort_keys : List (String × V) → List (String × V)
  sort_keys [] = []
  sort_keys (e ∷ m) = insert_sorted e (sort_keys m)

-- What holds of every entry holds of the one that a lookup finds.
pub All-lookup {ℓ κ} :
    {V : Type ℓ} (P : String × V → Type κ) (m : List (String × V)) (k : String) (v : V)
    → All P m
    → lookup k m ≡ some v
    → P (k, v)
unfolding lookup
All-lookup P [] k v h e = cc
All-lookup P ((j, w) ∷ m) k v h e = elim (Bool-cases (j ==ₛ k)) [
  | inl same ↦
      let f : some w ≡ some v = rw same at e in
      let q : w ≡ v = some-injective w v f in subst₂ (λ x y. P (x, y)) ((eq_iff j k).0 same) q h.0
  | inr other ↦ All-lookup P m k v h.1 (rw other at e)
]
