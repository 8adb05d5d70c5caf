-- ===== src/Workflow/Values.antt =====
-- equalJSON of control-plane/internal/workflow/graph.go: `json.Unmarshal` into `any`, where a
-- number is a float64 and a map forgets order and repeated keys, and `reflect.DeepEqual`.
use Prim.Native.String.{compare}
use text.Mathlib.Text.{is_eq, is_le}
use iterabase_mono.Common.{
  ℕ, String, Bool, true, false, ◌&&◌, Option, none, some, ◌==◌, ◌==ₛ◌, if◌then◌else◌,
}
use iterabase_mono.Workflow.Json.{Json, Items, Fields, Raw}

mutual
  pub data Value : Type 0 where
    null : Value
    boolean : Bool → Value
    float : ℕ → Value
    str : String → Value
    slice : Values → Value
    dict : Members → Value

  pub data Values : Type 0 where
    nil : Values
    cons : Value → Values → Values

  -- Sorted by key, each key once.
  pub data Members : Type 0 where
    end : Members
    member : String → Value → Members → Members

unfoldable pub put : String → Value → Members → Members
put k v end = member k v end
put k v (member j w ms) =
    let later = put k v ms in
    if is_eq (compare k j)
    then member k v ms
    else if is_le (compare k j)
    then member k v (member j w ms)
    else member j w later

-- `float_value` names the float64 of a literal, and is `none` where it is out of range.
module _ (float_value : String → Option ℕ) where
  float_of : Option ℕ → Option Value
  float_of none = none
  float_of (some x) = some (float x)

  cons_of : Option Value → Option Values → Option Values
  cons_of (some v) (some vs) = some (cons v vs)
  cons_of _ _ = none

  slice_of : Option Values → Option Value
  slice_of none = none
  slice_of (some vs) = some (slice vs)

  dict_of : Option Members → Option Value
  dict_of none = none
  dict_of (some ms) = some (dict ms)

  put_of : String → Option Value → Option Members → Option Members
  unfolding put
  put_of k (some v) (some ms) = some (put k v ms)
  put_of k _ _ = none

  unfoldable mutual
    unfolding float_of cons_of slice_of dict_of put_of

    pub decode_any : Json → Option Value
    decode_any Json.null = some null
    decode_any (Json.boolean b) = some (boolean b)
    decode_any (Json.number s) = float_of (float_value s)
    decode_any (Json.string s) = some (str s)
    decode_any (Json.array js) = slice_of (decode_items js)
    decode_any (Json.object fs) = dict_of (decode_fields fs (some end))
    decode_any Json.spaced = some (dict end)

    decode_items : Items → Option Values
    decode_items Items.nil = some nil
    decode_items (Items.cons j js) = cons_of (decode_any j) (decode_items js)

    decode_fields : Fields → Option Members → Option Members
    decode_fields Fields.end ms = ms
    decode_fields (Fields.field k v fs) ms = decode_fields fs (put_of k (decode_any v) ms)

bool_equal : Bool → Bool → Bool
bool_equal true b = b
bool_equal false true = false
bool_equal false false = true

unfoldable mutual
  unfolding bool_equal

  pub deep_equal : Value → Value → Bool
  deep_equal null null = true
  deep_equal (boolean a) (boolean b) = bool_equal a b
  deep_equal (float a) (float b) = a == b
  deep_equal (str a) (str b) = a ==ₛ b
  deep_equal (slice a) (slice b) = deep_equal_values a b
  deep_equal (dict a) (dict b) = deep_equal_members a b
  deep_equal _ _ = false

  deep_equal_values : Values → Values → Bool
  deep_equal_values nil nil = true
  deep_equal_values (cons a as') (cons b bs) = deep_equal a b && deep_equal_values as' bs
  deep_equal_values _ _ = false

  deep_equal_members : Members → Members → Bool
  deep_equal_members end end = true
  deep_equal_members (member j a as') (member k b bs) =
      j ==ₛ k && deep_equal a b && deep_equal_members as' bs
  deep_equal_members _ _ = false

decode_raw : (String → Option ℕ) → Raw → Option Value
unfolding decode_any
decode_raw float_value (Raw.value j) = decode_any float_value j
decode_raw float_value _ = none

both_equal : Option Value → Option Value → Bool
unfolding deep_equal
both_equal (some a) (some b) = deep_equal a b
both_equal _ _ = false

unfoldable pub equal_json : (String → Option ℕ) → Raw → Raw → Bool
unfolding decode_raw both_equal
equal_json float_value a b = both_equal (decode_raw float_value a) (decode_raw float_value b)
