-- ===== src/Types/Json.antt =====
-- `serde_json::Value`, as far as the server builds and inspects it.
use context_first_docs.Prelude.{ℕ, String, Bool, Option, none, some, if◌then◌else◌, ◌==◌, string_eq}

mutual
  pub data Json : Type 0 where
    null : Json
    bool : Bool → Json
    num : ℕ → Json
    str : String → Json
    arr : Elems → Json
    obj : Fields → Json

  pub data Elems : Type 0 where
    nil : Elems
    cons : Json → Elems → Elems

  pub data Fields : Type 0 where
    end : Fields
    field : String → Json → Fields → Fields

abbrev find_field : String → Fields → Option Json
find_field k end = none
find_field k (field j v fs) = if j == k then some v else find_field k fs

-- `Value::get` with a string index, which finds nothing unless the value is an object
abbrev pub get_field : Json → String → Option Json
get_field (obj fs) k = find_field k fs
get_field _ k = none

-- `Value::as_str`
abbrev pub as_str : Json → Option String
as_str (str s) = some s
as_str _ = none

-- `Value::as_object`: an object is passed on whole
abbrev pub as_object : Json → Option Json
as_object (obj fs) = some (obj fs)
as_object _ = none

-- `Value::as_array`: an array is passed on whole
abbrev pub as_array : Json → Option Json
as_array (arr vs) = some (arr vs)
as_array _ = none

-- `updates.get(k).and_then(|v| v.as_str())`
abbrev pub get_str : Json → String → Option String
get_str v k = elim (get_field v k) [ none ↦ none | some w ↦ as_str w ]

-- `serde_json::json!({ k: v })`
abbrev pub object : String → Json → Json
object k v = obj (field k v end)
