-- ===== src/Workflow/Json.antt =====
-- What control-plane/internal/workflow/graph.go sees of a `json.RawMessage`, and the decodings of
-- encoding/json that it uses. Numbers keep their literal; a `null` leaves its target's zero value.
use Prim.Native.Char.{code}
use iterabase_mono.Common.{
  ℕ, ◌+◌, String, Bool, true, false, ◌&&◌, Option, none, some, List, [], ◌∷◌, ◌==◌, leb,
  if◌then◌else◌,
}
use iterabase_mono.Common.Dict.{insert}

mutual
  -- `spaced` is an empty object with white space between its braces: its text is not `{}`.
  pub data Json : Type 0 where
    null : Json
    boolean : Bool → Json
    number : String → Json
    string : String → Json
    array : Items → Json
    object : Fields → Json
    spaced : Json

  pub data Items : Type 0 where
    nil : Items
    cons : Json → Items → Items

  pub data Fields : Type 0 where
    end : Fields
    field : String → Json → Fields → Fields

-- `blank` is nil, no bytes, or white space.
pub data Raw : Type 0 where
  blank malformed : Raw
  value : Json → Raw

-- `len(bytes.TrimSpace(raw)) == 0 || bytes.Equal(bytes.TrimSpace(raw), []byte("{}"))`
abbrev pub is_trivial : Raw → Bool
is_trivial blank = true
is_trivial (value (object end)) = true
is_trivial _ = false

unfoldable pub items : Items → List Json
items nil = []
items (cons j js) = j ∷ items js

-- Into an existing map: a later entry of a key replaces an earlier one.
unfoldable pub merge : Fields → List (String × Json) → List (String × Json)
merge end m = m
merge (field k v fs) m = merge fs (insert k v m)

-- `json.Unmarshal` into a fresh `map[string]json.RawMessage`.
unfoldable pub decode_map : Raw → Option (List (String × Json))
unfolding merge
decode_map (value (object fs)) = some (merge fs [])
decode_map (value spaced) = some []
decode_map (value null) = some []
decode_map _ = none

-- Into a fresh `string`, `bool`, `[]json.RawMessage` and `[]string`; `none` of the argument is the
-- nil message of an absent key.
abbrev pub decode_string : Option Json → Option String
decode_string (some (string s)) = some s
decode_string (some null) = some ""
decode_string _ = none

abbrev pub decode_bool : Json → Option Bool
decode_bool (boolean b) = some b
decode_bool null = some false
decode_bool _ = none

unfoldable pub decode_list : Json → Option (List Json)
unfolding items
decode_list (array js) = some (items js)
decode_list null = some []
decode_list _ = none

unfoldable pub decode_texts : List Json → Option (List String)
decode_texts [] = some []
decode_texts (j ∷ js) = elim (decode_string (some j)) [
  | none ↦ none
  | some s ↦ elim (decode_texts js) [ none ↦ none | some ss ↦ some (s ∷ ss) ]
]

unfoldable pub decode_strings : Json → Option (List String)
unfolding decode_list decode_texts
decode_strings j = elim (decode_list j) [ none ↦ none | some js ↦ decode_texts js ]

-- A key matches a struct's tag up to case: ASCII letters, the long s and the Kelvin sign.
fold_code : ℕ → ℕ
fold_code c =
    if leb b'A' c && leb c b'Z'
    then c + 32
    else if c == 0x17f
    then b's'
    else if c == 0x212a
    then b'k'
    else c

unfoldable pub same_name : String → String → Bool
unfolding fold_code
same_name String.[] String.[] = true
same_name (String.◌∷◌ a s) (String.◌∷◌ b t) =
    fold_code (code a) == fold_code (code b) && same_name s t
same_name _ _ = false

-- Into a member that holds a value already; `none` is a type error.
abbrev pub text_into : Json → String → Option String
text_into (string t) s = some t
text_into null s = some s
text_into _ s = none

unfoldable pub map_into : Json → List (String × Json) → Option (List (String × Json))
unfolding merge
map_into (object gs) m = some (merge gs m)
map_into spaced m = some m
map_into null m = some []
map_into _ m = none

-- A `*bool`.
abbrev pub flag_into : Json → Option Bool → Option (Option Bool)
flag_into (boolean c) b = some (some c)
flag_into null b = some none
flag_into _ b = none

unfoldable pub list_into : Json → List Json → Option (List Json)
unfolding items
list_into (array js) old = some (items js)
list_into null old = some []
list_into _ old = none

-- A member of a struct by its tag: each key that matches decodes into what an earlier one left.
unfoldable pub member {ℓ} : {A : Type ℓ} → (Json → A → Option A) → String → Fields → A → Option A
unfolding same_name
member into tag end a = some a
member into tag (field k v fs) a = elim (if same_name k tag then into v a else some a) [
  | none ↦ none
  | some a' ↦ member into tag fs a'
]

-- The members that a JSON value offers to a struct: none of `null`, and no others of a non-object.
abbrev pub struct_fields : Raw → Option Fields
struct_fields (value (object fs)) = some fs
struct_fields (value spaced) = some end
struct_fields (value null) = some end
struct_fields _ = none
