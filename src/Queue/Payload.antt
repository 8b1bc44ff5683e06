-- ===== src/Queue/Payload.antt =====
-- The JSON objects that the queue stores (src/queue/types.ts, `payload_json` of
-- src/queue/repository.ts). An object is the list of its properties; the order of the properties
-- is never read. JSON.parse undoes JSON.stringify, so a stored text is the value it was made from.
use my_discord_agent.Base.{
  ◌==◌, if◌then◌else◌, get_or, ℕ, String, Bool, true, false, ◌||◌, Option, none, some, List, [],
  ◌∷◌, str_eq,
}

mutual
  pub data Json : Type 0 where
    null : Json
    bool : Bool → Json
    num : ℕ → Json
    str : String → Json
    arr : Items → Json
    obj : Properties → Json

  pub data Items : Type 0 where
    nil : Items
    cons : Json → Items → Items

  pub data Properties : Type 0 where
    end : Properties
    property : String → Json → Properties → Properties

abbrev pub Object : Type 0
Object = List (String × Json)

-- `o[key]`, and `json_extract(o,'$.key')`.
unfoldable pub get : String → Object → Option Json
get k [] = none
get k ((j, v) ∷ o) = if str_eq j k then some v else get k o

-- `o[key] = value`
unfoldable pub put : String → Json → Object → Object
put k v [] = (k, v) ∷ []
put k v ((j, w) ∷ o) = if str_eq j k then (k, v) ∷ o else (j, w) ∷ put k v o

-- `delete o[key]`
unfoldable pub delete : String → Object → Object
delete k [] = []
delete k ((j, w) ∷ o) = let rest = delete k o in if str_eq j k then rest else (j, w) ∷ rest

unfoldable pub delete_all : List String → Object → Object
delete_all [] o = o
delete_all (k ∷ ks) o = delete_all ks (delete k o)

-- `{...o, ...patch}`, and `Object.assign(o, patch)`.
unfoldable pub assign : Object → Object → Object
assign o [] = o
assign o ((k, v) ∷ patch) = put k v (assign o patch)

unfoldable pub has_key : String → List String → Bool
has_key k [] = false
has_key k (j ∷ ks) = str_eq j k || has_key k ks

-- `json_extract(…)=1`; its negation is `IS NOT 1`, which also holds of a missing property.
unfoldable pub is_one : Option Json → Bool
is_one (some (bool b)) = b
is_one (some (num n)) = n == 1
is_one _ = false

-- `json_extract(…)=text`
unfoldable pub is_str : Option Json → String → Bool
is_str (some (str s)) t = str_eq s t
is_str _ t = false

-- `json_extract(…) IS NOT NULL`
unfoldable pub is_not_null : Option Json → Bool
is_not_null none = false
is_not_null (some null) = false
is_not_null (some (bool b)) = true
is_not_null (some (num n)) = true
is_not_null (some (str s)) = true
is_not_null (some (arr v)) = true
is_not_null (some (obj v)) = true

-- A property that the types declare to be a string or a number.
unfoldable pub as_str : Option Json → Option String
as_str (some (str s)) = some s
as_str _ = none

unfoldable pub as_num : Option Json → Option ℕ
as_num (some (num n)) = some n
as_num _ = none

get_property : String → Properties → Option Json
get_property k end = none
get_property k (property j v o) = if str_eq j k then some v else get_property k o

-- A source envelope, `{kind, input}`.
pub record SourceEnvelope : Type 0 where
  pub kind : String
  pub input : Json

-- `o.feature`, where it is there and is an envelope.
unfoldable pub as_envelope : Option Json → Option SourceEnvelope
unfolding get_property as_str
as_envelope (some (obj o)) = elim (as_str (get_property "kind" o)) [
  | none ↦ none
  | some k ↦ some (record { kind = k; input = get_or (get_property "input" o) null })
]
as_envelope _ = none

move : String → String → Object → Object
unfolding get put
move from to o = elim (get to o) [
  | some v ↦ o
  | none ↦ elim (get from o) [ some v ↦ put to v o | none ↦ o ]
]

-- Fields written before the system-prompt snapshot terminology was introduced.
unfoldable pub normalize_inbox_message_payload : Object → Object
unfolding move delete
normalize_inbox_message_payload o = delete "agentsSnapshotPresent" (
    delete "agentsSnapshotContent" (
      move "agentsSnapshotPresent" "systemPromptSnapshotPresent"
        (move "agentsSnapshotContent" "systemPromptSnapshotContent" o)))
