-- ===== src/Signaling/Json.antt =====
-- What the protocol uses of nlohmann/json, as an interface: values, their cases, objects that are
-- filled key by key, and text. The laws are the library's documented behaviour.
pub mod Laws
use driscord.Common.{
  ◌≡◌, Bool, true, false, List, Option, none, some, String, str_eq, if◌then◌else◌,
}

pub record JsonLibrary : Type 1 where
  pub Json : Type 0
  pub Object : Type 0
  -- The cases `is_object`, `is_string` with `get<std::string>`, `is_array` with its elements, and
  -- `is_null`.
  pub as_object : Json → Option Object
  pub as_string : Json → Option String
  pub as_array : Json → Option (List Json)
  pub is_null : Json → Bool
  pub object : Object → Json
  pub string : String → Json
  pub array : List Json → Json
  pub null : Json
  -- `json::object()`, `msg[key] = value` and `msg.find(key)`.
  pub empty : Object
  pub assign : Object → String → Json → Object
  pub find : Object → String → Option Json
  -- `json::dump()` and `json::parse(raw)`, which throws where this is `none`.
  pub dump_text : Json → String
  pub parse_text : String → Option Json
  pub as_object-object : (o : Object) → as_object (object o) ≡ some o
  pub as_string-string : (s : String) → as_string (string s) ≡ some s
  pub as_string-null : as_string null ≡ none
  pub as_array-array : (xs : List Json) → as_array (array xs) ≡ some xs
  pub is_null-string : (s : String) → is_null (string s) ≡ false
  pub is_null-null : is_null null ≡ true
  pub find-empty : (k : String) → find empty k ≡ none
  pub find-assign :
      (o : Object) (k j : String) (v : Json)
      → find (assign o k v) j ≡ (if str_eq k j then some v else find o j)

-- Reading back what was dumped gives the value. The library documents this for values whose texts
-- are valid UTF-8.
abbrev pub ReadsBack : (J : JsonLibrary) → J.Json → Type 0
ReadsBack J v = J.parse_text (J.dump_text v) ≡ some v
