-- ===== src/Signaling/Json/Laws.antt =====
-- The laws as lemmas, and the rules that they make.
use driscord.Common.{◌≡◌, true, false, List, none, some, String, str_eq, if◌then◌else◌}
use driscord.Signaling.Json.{JsonLibrary}

module _ (J : JsonLibrary) where
  open J use {
    Json, Object, as_object, as_string, as_array, is_null, object, string, array, null, empty,
    assign, find,
  }

  pub as_object-object : (o : Object) → as_object (object o) ≡ some o
  as_object-object = J.as_object-object

  pub as_string-string : (s : String) → as_string (string s) ≡ some s
  as_string-string = J.as_string-string

  pub as_string-null : as_string null ≡ none
  as_string-null = J.as_string-null

  pub as_array-array : (xs : List Json) → as_array (array xs) ≡ some xs
  as_array-array = J.as_array-array

  pub is_null-string : (s : String) → is_null (string s) ≡ false
  is_null-string = J.is_null-string

  pub is_null-null : is_null null ≡ true
  is_null-null = J.is_null-null

  pub find-empty : (k : String) → find empty k ≡ none
  find-empty = J.find-empty

  pub find-assign :
      (o : Object) (k j : String) (v : Json)
      → find (assign o k v) j ≡ (if str_eq k j then some v else find o j)
  find-assign = J.find-assign

pub ruleset json_laws = (
  as_object-object, as_string-string, as_string-null, as_array-array, is_null-string, is_null-null,
  find-empty, find-assign,
)
