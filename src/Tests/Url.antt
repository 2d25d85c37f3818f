-- ===== src/Tests/Url.antt =====
-- The targets of backend/signaling_server/src/ws_server.cpp at concrete texts.
use driscord.Common.{false, true, ℕ, ◌≡◌, refl, ◌⊎◌, List, [], ◌∷◌, ◌++◌, codes, arith}
use driscord.Server.Url.{
  after_prefix, before_first, after_first, strip_slashes, parse_room_id, hex, byte_of, url_decode,
  same_text, split_pairs, find_param, parse_query_param,
}
use driscord.Server.Url.Laws.{percent_encode, url_decode-percent_encode}
use driscord.Server.Url.Pieces.{
  Piece, plain, space, escape, percent, written, meant, url_decode-written,
}
use driscord.Server.Url.Query.{parse_query_param-percent_encode}
use driscord.Server.Url.RoomName.{IsRoomName, parse_room_id-IsRoomName, parse_room_id-named}

plus_and_percent : url_decode (codes "a+b%21%4") ≡ codes "a b!%4"
unfolding url_decode byte_of hex
plus_and_percent = refl

room_in_target : parse_room_id (codes "/channels/42//?u=ann") ≡ codes "42"
unfolding parse_room_id after_prefix before_first strip_slashes
room_in_target = refl

name_in_target : parse_query_param (codes "/channels/42?t=x&u=ann") (codes "u") ≡ codes "ann"
unfolding parse_query_param after_first before_first split_pairs find_param same_text url_decode
name_in_target = refl

abbrev ann : List ℕ
ann = 65 ∷ 38 ∷ 255 ∷ []

url_decode-percent_encode_example : url_decode (percent_encode ann) ≡ ann
url_decode-percent_encode_example =
    url_decode-percent_encode ann (omega arith, (omega arith, (omega arith, tt)))

-- "a+%21%4Z", with the second percent sign before no escape.
abbrev mixed : List Piece
mixed = plain 97 ∷ space ∷ escape 33 false true ∷ percent ∷ plain 52 ∷ plain 90 ∷ []

mixed_written : written mixed ≡ codes "a+%21%4Z"
mixed_written = refl

url_decode-written_example : url_decode (written mixed) ≡ meant mixed
url_decode-written_example = url_decode-written mixed (ground arith)

parse_query_param-percent_encode_example :
    let pair = codes "u" ++ 61 ∷ percent_encode ann in
    (parse_query_param (codes "/channels/42" ++ 63 ∷ pair) (codes "u") ≡ ann)
    × (parse_query_param (codes "/channels/42" ++ 63 ∷ (pair ++ 38 ∷ codes "t=x")) (codes "u")
        ≡ ann)
parse_query_param-percent_encode_example =
    parse_query_param-percent_encode (codes "/channels/42") (codes "u") ann (codes "t=x") refl refl
      refl (omega arith, (omega arith, (omega arith, tt)))

parse_room_id-IsRoomName_example :
    (parse_room_id (codes "/channels/42//?u=ann") ≡ codes "default")
    ⊎ IsRoomName (codes "/channels/42//?u=ann") (parse_room_id (codes "/channels/42//?u=ann"))
parse_room_id-IsRoomName_example = parse_room_id-IsRoomName (codes "/channels/42//?u=ann")

parse_room_id-named_example :
    (parse_room_id (codes "/channels/" ++ codes "42") ≡ codes "42")
    × (parse_room_id (codes "/channels/" ++ (codes "42" ++ 63 ∷ codes "u=ann")) ≡ codes "42")
parse_room_id-named_example =
    parse_room_id-named (codes "42") (codes "u=ann") (omega arith) refl refl
