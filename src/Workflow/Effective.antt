-- ===== src/Workflow/Effective.antt =====
-- effectiveResultSchema of control-plane/internal/workflow/graph.go: its errors, and how deep its answer
-- nests.
use iterabase_mono.Common.{
  ℕ, suc, ◌≤◌, String, ◌≡◌, refl, subst, inl, inr, Bool, true, false, Option, none, some, List, [],
  ◌∷◌, arith, Option-cases, if◌then◌else◌,
}
use iterabase_mono.Common.Dict.{lookup, has_key, All-lookup}
use iterabase_mono.Common.Result.{
  Result, ok, err, ◌>>=◌, reject_if, each, or_fail, or_fail-eq-ok, >>=-eq-ok, >>-eq-ok,
}
use iterabase_mono.Workflow.Json.{Json, Fields, value, object, end, decode_map, struct_fields}
use iterabase_mono.Workflow.Spec.{PresentationError}
use iterabase_mono.Workflow.Spec
use iterabase_mono.Workflow.Depth.{depth, depth_fields}
use iterabase_mono.Workflow.Fuel.{Within, decode_map-Within}
use iterabase_mono.Workflow.Results.{
  Effective, composed_keywords, direct_schema, item_schema, effective_result_schema,
}

abbrev pub ran_out : PresentationError → Bool
ran_out Spec.out_of_fuel = true
ran_out _ = false

-- Whether a result is the error of missing fuel.
abbrev pub is_short {ℓ} : {A : Type ℓ} → Result PresentationError A → Bool
is_short (ok a) = false
is_short (err e) = ran_out e

pub bind_short {ℓ κ} :
    {A : Type ℓ} {B : Type κ} (m : Result PresentationError A) (f : A → Result PresentationError B)
    → is_short m ≡ false
    → ((a : A) → m ≡ ok a → is_short (f a) ≡ false)
    → is_short (m >>= f) ≡ false
bind_short (ok a) f h k = k a refl
bind_short (err e) f h k = h

reject_short :
    (b : Bool) (e : PresentationError) → ran_out e ≡ false → is_short (reject_if b e) ≡ false
reject_short true e h = h
reject_short false e h = refl

or_fail_short {ℓ} :
    {A : Type ℓ} (o : Option A) (e : PresentationError)
    → ran_out e ≡ false
    → is_short (or_fail o e) ≡ false
or_fail_short none e h = h
or_fail_short (some a) e h = refl

each_short {ℓ} :
    {A : Type ℓ} (f : A → Result PresentationError (Unit {0})) (xs : List A)
    → ((x : A) → is_short (f x) ≡ false)
    → is_short (each f xs) ≡ false
unfolding each
each_short f [] h = refl
each_short f (x ∷ xs) h = bind_short (f x) (λ _. each f xs) (h x) (λ _ _. each_short f xs h)

direct_short :
    (raw : Json) (schema : List (String × Json)) → is_short (direct_schema raw schema) ≡ false
unfolding direct_schema
direct_short raw schema = ground arith

pub fields_depth :
    (raw : Json) (fs : Fields) (d : ℕ)
    → depth raw ≤ suc d
    → struct_fields (value raw) ≡ some fs
    → depth_fields fs ≤ d
unfolding depth
fields_depth (object gs) fs d h e =
    let q : gs ≡ fs = ground (arith, e) in subst (λ x. depth_fields x ≤ d) q (omega (arith, h))
fields_depth Json.spaced fs d h e =
    let q : end ≡ fs = ground (arith, e) in subst (λ x. depth_fields x ≤ d) q (omega arith)
fields_depth Json.null fs d h e =
    let q : end ≡ fs = ground (arith, e) in subst (λ x. depth_fields x ≤ d) q (omega arith)
fields_depth _ fs d h e = cc

keywords_short :
    (schema : List (String × Json)) (e : PresentationError)
    → ran_out e ≡ false
    → is_short (each (λ (k : String). reject_if (has_key schema k) e) composed_keywords) ≡ false
keywords_short schema e h =
    each_short _ composed_keywords (λ k. reject_short (has_key schema k) e h)

item_short : (o : Option Json) → is_short (item_schema o) ≡ false
unfolding item_schema
item_short none = refl
item_short (some raw) =
    bind_short (or_fail (decode_map (value raw)) Spec.item_not_object) _
      (or_fail_short (decode_map (value raw)) Spec.item_not_object refl)
      (λ schema _.
        bind_short
          (each (λ (k : String). reject_if (has_key schema k) Spec.item_keyword) composed_keywords)
          _ (keywords_short schema Spec.item_keyword refl) (λ _ _. direct_short raw schema))

choice_short :
    (listed : Bool) (raw : Json) (schema : List (String × Json))
    → is_short (if listed then item_schema (lookup "items" schema) else direct_schema raw schema)
      ≡ false
choice_short true raw schema = item_short (lookup "items" schema)
choice_short false raw schema = direct_short raw schema

pub effective_short : (raw : Json) → is_short (effective_result_schema raw) ≡ false
unfolding effective_result_schema
effective_short raw =
    bind_short (or_fail (decode_map (value raw)) Spec.must_be_object) _
      (or_fail_short (decode_map (value raw)) Spec.must_be_object refl)
      (λ schema _.
        bind_short
          (each (λ (k : String). reject_if (has_key schema k) Spec.keyword_in_schema)
            composed_keywords)
          _ (keywords_short schema Spec.keyword_in_schema refl) (λ _ _. choice_short _ raw schema))

direct_depth :
    (raw : Json) (schema : List (String × Json)) (e : Effective)
    → direct_schema raw schema ≡ ok e
    → e.schema ≡ raw
unfolding direct_schema
direct_depth raw schema e h = ground (arith, h)

choice_depth :
    (listed : Bool) (raw : Json) (schema : List (String × Json)) (e : Effective)
    → Within (depth raw) schema
    → (if listed then item_schema (lookup "items" schema) else direct_schema raw schema) ≡ ok e
    → depth e.schema ≤ depth raw
unfolding item_schema
choice_depth false raw schema e w h = rw (direct_depth raw schema e h) (omega arith)
choice_depth true raw schema e w h = elim (Option-cases (lookup "items" schema)) [
  | inl missing ↦ let q = rw missing at h in absurd (cc q)
  | inr (j, listed) ↦
      let q : item_schema (some j) ≡ ok e = rw listed at h in
      let (inner, _, h₁) = >>=-eq-ok (or_fail (decode_map (value j)) Spec.item_not_object) _ q in
      let (_, h₂) =
        >>-eq-ok
          (each (λ (k : String). reject_if (has_key inner k) Spec.item_keyword) composed_keywords) _
          h₁ in
      rw (direct_depth j inner e h₂)
        (All-lookup (λ (p : String × Json). depth p.1 ≤ depth raw) schema "items" j w listed)
]

pub effective_depth :
    (raw : Json) (e : Effective) → effective_result_schema raw ≡ ok e → depth e.schema ≤ depth raw
unfolding effective_result_schema
effective_depth raw e h =
    let (schema, decoded, h₁) =
      >>=-eq-ok (or_fail (decode_map (value raw)) Spec.must_be_object) _ h in
    let (_, h₂) =
      >>-eq-ok
        (each (λ (k : String). reject_if (has_key schema k) Spec.keyword_in_schema)
          composed_keywords)
        _ h₁ in
    choice_depth _ raw schema e (decode_map-Within raw schema (or_fail-eq-ok _ _ decoded)) h₂
