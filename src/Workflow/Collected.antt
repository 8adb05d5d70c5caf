-- ===== src/Workflow/Collected.antt =====
-- collectResultSchemaFields of control-plane/internal/workflow/graph.go and its fuel.
use iterabase_mono.Common.{
  ℕ, zero, suc, ◌≤◌, ◌<◌, String, ◌≡◌, ◌≢◌, refl, ap, subst, Bool, true, false, not, ◌&&◌, none,
  List, [], ◌∷◌, ◌++◌, ◌==ₛ◌, arith, if◌then◌else◌,
}
use iterabase_mono.Common.Dict.{sort_keys}
use iterabase_mono.Common.Result.{
  Result, ok, err, ◌>>=◌, or_fail, ok-injective, or_fail-eq-ok, >>=-eq-ok,
}
use iterabase_mono.Workflow.Json.{
  Json, value, object, map_into, text_into, flag_into, member, struct_fields,
}
use iterabase_mono.Workflow.Spec.{PresentationError}
use iterabase_mono.Workflow.Spec
use iterabase_mono.Workflow.Depth.{depth}
use iterabase_mono.Workflow.Fuel.{Within, Within-sort_keys, member-Within}
use iterabase_mono.Workflow.Results.{
  ObjectSchema, Schemas, effective_result_schema, decode_object_schema,
  validate_propertyless_result_root, path_insert, collect_keys, collect_object,
  collect_result_schema_fields,
}
use iterabase_mono.Workflow.Effective.{
  is_short, bind_short, fields_depth, effective_short, effective_depth,
}

-- The properties of a decoded schema nest less deep than the schema, if there are any.
decoded_depth :
    (raw : Json) (s : ObjectSchema) (d : ℕ)
    → depth raw ≤ suc d
    → decode_object_schema raw ≡ ok s
    → Within d s.properties
unfolding decode_object_schema depth
decoded_depth raw s d h e =
    let (fs, read, h₁) = >>=-eq-ok (or_fail (struct_fields (value raw)) Spec.must_be_object) _ e in
    let (type, _, h₂) =
      >>=-eq-ok (or_fail (member text_into "type" fs "") Spec.must_be_object) _ h₁ in
    let (properties, mapped, h₃) =
      >>=-eq-ok (or_fail (member map_into "properties" fs []) Spec.must_be_object) _ h₂ in
    let (flag, _, h₄) =
      >>=-eq-ok (or_fail (member flag_into "additionalProperties" fs none) Spec.must_be_object) _
        h₃ in
    let w =
      member-Within d "properties" fs [] properties
        (fields_depth raw fs d h (or_fail-eq-ok _ _ read)) tt (or_fail-eq-ok _ _ mapped) in
    subst (λ (x : ObjectSchema). Within d x.properties) (ok-injective _ _ h₄) w

-- The calls of `deeper` on schemas of the depth `d` have fuel.
abbrev IsDeepEnough : ℕ → (Json → List String → Schemas → Result PresentationError Schemas) → Type 0
IsDeepEnough d deeper =
    (j : Json) (path : List String) (out : Schemas)
    → depth j ≤ d
    → is_short (deeper j path out) ≡ false

nested_short :
    (nested : Bool) (d : ℕ)
    (deeper : Json → List String → Schemas → Result PresentationError Schemas) (j : Json)
    (path : List String) (out : Schemas)
    → IsDeepEnough d deeper
    → depth j ≤ d
    → is_short (if nested then deeper j path out else ok out) ≡ false
nested_short true d deeper j path out h le = h j path out le
nested_short false d deeper j path out h le = refl

collect_keys_short :
    (d : ℕ) (deeper : Json → List String → Schemas → Result PresentationError Schemas)
    (prefix : List String) (entries : List (String × Json)) (out : Schemas)
    → IsDeepEnough d deeper
    → Within d entries
    → is_short (collect_keys deeper prefix entries out) ≡ false
unfolding collect_keys
collect_keys_short d deeper prefix [] out h w = refl
collect_keys_short d deeper prefix ((key, schema) ∷ rest) out h w =
    let path = prefix ++ key ∷ [] in
    bind_short (effective_result_schema schema) _ (effective_short schema) (λ e found.
      bind_short
        (if not e.has_enum && e.type ==ₛ "object"
          then deeper e.schema path (path_insert path schema out)
          else ok (path_insert path schema out))
        _
        (nested_short _ d deeper e.schema path (path_insert path schema out) h
          (omega (arith, effective_depth schema e found, w.0)))
        (λ out' _. collect_keys_short d deeper prefix rest out' h w.1))

collect_object_short :
    (d : ℕ) (deeper : Json → List String → Schemas → Result PresentationError Schemas)
    (prefix : List String) (s : ObjectSchema) (out : Schemas)
    → IsDeepEnough d deeper
    → Within d s.properties
    → is_short (collect_object deeper prefix s out) ≡ false
unfolding collect_object validate_propertyless_result_root
collect_object_short d deeper prefix s out h w =
    let rest =
      collect_keys_short d deeper prefix (sort_keys s.properties) out h
        (Within-sort_keys d s.properties w) in
    ground (arith, rest)

decode_short : (raw : Json) → is_short (decode_object_schema raw) ≡ false
unfolding decode_object_schema
decode_short raw = ground arith

-- A schema with nothing inside needs no further call.
shallow_short :
    (deeper : Json → List String → Schemas → Result PresentationError Schemas) (raw : Json)
    (prefix : List String) (out : Schemas)
    → depth raw < 1
    → is_short (decode_object_schema raw >>= λ s. collect_object deeper prefix s out) ≡ false
unfolding decode_object_schema collect_object validate_propertyless_result_root depth member
shallow_short deeper Json.null prefix out h = ground arith
shallow_short deeper Json.spaced prefix out h = ground arith
shallow_short deeper (object fs) prefix out h = absurd (omega (arith, h))
shallow_short deeper _ prefix out h = refl

collect_short :
    (fuel : ℕ) (raw : Json) (prefix : List String) (out : Schemas)
    → depth raw < fuel
    → is_short (collect_result_schema_fields fuel raw prefix out) ≡ false
unfolding collect_result_schema_fields
collect_short zero raw prefix out h = absurd (omega arith)
collect_short (suc zero) raw prefix out h =
    shallow_short (collect_result_schema_fields zero) raw prefix out h
collect_short (suc (suc fuel)) raw prefix out h =
    bind_short (decode_object_schema raw) _ (decode_short raw) (λ s found.
      collect_object_short fuel (collect_result_schema_fields (suc fuel)) prefix s out
        (λ j path o le. collect_short (suc fuel) j path o (omega (arith, le)))
        (decoded_depth raw s fuel (omega (arith, h)) found))

-- With more fuel than the schema is deep, the result of collectResultSchemaFields is never the error that stands
-- for missing fuel, whatever the prefix and the fields found before are.
pub collect_result_schema_fields_lem :
    (fuel : ℕ) (raw : Json) (prefix : List String) (out : Schemas)
    → depth raw < fuel
    → collect_result_schema_fields fuel raw prefix out ≢ err Spec.out_of_fuel
collect_result_schema_fields_lem fuel raw prefix out h e =
    let q = ap is_short e in cc (q, collect_short fuel raw prefix out h)
