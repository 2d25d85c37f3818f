-- ===== src/Server/Url.antt =====
-- What a session reads from the target of its HTTP request: `parse_room_id`, `url_decode` and
-- `parse_query_param` of backend/signaling_server/src/ws_server.cpp. A text is the list of its bytes.
pub mod Laws
pub mod Pieces
pub mod Query
pub mod RoomName
use driscord.Common.{
  ℕ, ◌+◌, ◌-◌, ◌*◌, ◌^◌, ◌==◌, leb, Bool, true, false, ◌&&◌, List, [], ◌∷◌, Option, none, some,
  length, codes, if◌then◌else◌, bit_or,
}

-- What follows a prefix.
unfoldable pub after_prefix : List ℕ → List ℕ → Option (List ℕ)
after_prefix [] text = some text
after_prefix (p ∷ ps) [] = none
after_prefix (p ∷ ps) (c ∷ cs) = let rest = after_prefix ps cs in if c == p then rest else none

-- What precedes the first character `d`, and what follows it.
unfoldable pub before_first : ℕ → List ℕ → List ℕ
before_first d [] = []
before_first d (c ∷ cs) = let rest = before_first d cs in if c == d then [] else c ∷ rest

unfoldable pub after_first : ℕ → List ℕ → Option (List ℕ)
after_first d [] = none
after_first d (c ∷ cs) = let rest = after_first d cs in if c == d then some cs else rest

-- Without the slashes at its end.
unfoldable pub strip_slashes : List ℕ → List ℕ
strip_slashes [] = []
strip_slashes (c ∷ cs) =
    let rest = strip_slashes cs in if length rest == 0 && c == 47 then [] else c ∷ rest

unfoldable pub parse_room_id : List ℕ → List ℕ
parse_room_id target = elim (after_prefix (codes "/channels/") target) [
  | none ↦ codes "default"
  | some rest ↦
      let room = strip_slashes (before_first 63 rest) in
      if length room == 0 then codes "default" else room
]

-- The value of a hexadecimal digit; `none` is -1.
unfoldable pub hex : ℕ → Option ℕ
hex h =
    if leb 48 h && leb h 57
    then some (h - 48)
    else if leb 97 h && leb h 102
    then some (h - 97 + 10)
    else if leb 65 h && leb h 70
    then some (h - 65 + 10)
    else none

unfoldable pub byte_of : ℕ → ℕ → Option ℕ
byte_of h l = elim (hex h) [
  | none ↦ none
  | some hi ↦ elim (hex l) [ none ↦ none | some lo ↦ some (bit_or (hi * 2 ^ 4) lo) ]
]

unfoldable pub url_decode : List ℕ → List ℕ
url_decode [] = []
url_decode (c ∷ []) = (if c == 43 then 32 else c) ∷ []
url_decode (c ∷ h ∷ []) = (if c == 43 then 32 else c) ∷ url_decode (h ∷ [])
url_decode (c ∷ h ∷ l ∷ rest) =
    let next = url_decode (h ∷ l ∷ rest) in
    let skipped = url_decode rest in
    let escaped : List ℕ = elim (byte_of h l) [ none ↦ c ∷ next | some byte ↦ byte ∷ skipped ] in
    if c == 43 then 32 ∷ next else if c == 37 then escaped else c ∷ next

unfoldable pub same_text : List ℕ → List ℕ → Bool
same_text [] [] = true
same_text [] (d ∷ ds) = false
same_text (c ∷ cs) [] = false
same_text (c ∷ cs) (d ∷ ds) = c == d && same_text cs ds

-- The texts between the `&`, which are the rounds of the loop; an empty one has no `=`.
abbrev pub onto_first : ℕ → List (List ℕ) → List (List ℕ)
onto_first c [] = (c ∷ []) ∷ []
onto_first c (piece ∷ pieces) = (c ∷ piece) ∷ pieces

unfoldable pub split_pairs : List ℕ → List (List ℕ)
split_pairs [] = [] ∷ []
split_pairs (c ∷ cs) = let rest = split_pairs cs in if c == 38 then [] ∷ rest else onto_first c rest

unfoldable pub find_param : List ℕ → List (List ℕ) → List ℕ
find_param key [] = []
find_param key (pair ∷ pairs) =
    let rest = find_param key pairs in
    elim (after_first 61 pair) [
      | none ↦ rest
      | some value ↦ if same_text (before_first 61 pair) key then url_decode value else rest
    ]

unfoldable pub parse_query_param : List ℕ → List ℕ → List ℕ
parse_query_param target key = elim (after_first 63 target) [
  | none ↦ []
  | some query ↦ find_param key (split_pairs query)
]
