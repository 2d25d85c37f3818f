-- ===== src/Signaling/Fields.antt =====
-- What the parser's helpers return on a field that `encode` wrote.
use driscord.Common.{◌≡◌, refl, List, [], ◌∷◌, Option, none, some, String, map, arith}
use driscord.Signaling.{
  PeerId, PeerIdentity, ConnectionId, voice, screen, WatchRejectReason, unknown_peer, not_streaming,
  capacity, value, ParseError, missing_type, missing_field, invalid_field, connection_to_string,
  reason_to_string,
}
use driscord.Signaling.Json.{JsonLibrary}
use driscord.Signaling.Json.Laws.{
  json_laws, as_object-object, as_string-string, as_string-null, as_array-array, is_null-string,
  is_null-null,
}
use driscord.Signaling.Encode.{encode_peer, encode_binding}
use driscord.Signaling.Parse.{
  find_string, required_string, text_or_empty, optional_string, optional_peer_id, username_of,
  connection_of, parse_connection, reason_of, parse_watch_reject_reason, parse_peer, parse_peers,
  parse_streaming, optional_array, parse_binding, dispatch, parse_json,
}
use driscord.Signaling.Sendable.{NonEmpty, AllNamed, AllNonEmpty, NonEmptyIfAny}

module _ (J : JsonLibrary) where
  open J use {Object, object, string, find}

  pub required_string-found :
      (msg : Object) (key s : String) (e : ParseError)
      → find msg key ≡ some (string s)
      → NonEmpty s
      → required_string J msg key e ≡ value s
  unfolding required_string find_string
  required_string-found msg key s e found h = ground (arith, found, as_string-string J s)

  pub parse_json-object :
      (msg : Object) (type : String)
      → find msg "type" ≡ some (string type)
      → NonEmpty type
      → parse_json J (object msg) ≡ dispatch J type msg
  unfolding parse_json
  parse_json-object msg type found h = rw (
    parse_json,
    as_object-object J msg,
    required_string-found msg "type" type missing_type found h,
  )

  pub parse_connection-found :
      (msg : Object) (c : ConnectionId)
      → find msg "connection" ≡ some (string (connection_to_string c))
      → parse_connection J msg ≡ value c
  unfolding parse_connection connection_of
  parse_connection-found msg voice found = ground (arith, found, as_string-string J "voice")
  parse_connection-found msg screen found = ground (arith, found, as_string-string J "screen")

  pub username_of-found :
      (msg : Object) (s : String) → find msg "username" ≡ some (string s) → username_of J msg ≡ s
  unfolding username_of optional_string text_or_empty
  username_of-found msg s found = ground (arith, found, as_string-string J s, is_null-string J s)

  pub parse_peer-encode_peer :
      (peer : PeerIdentity) → NonEmpty peer.id → parse_peer J (encode_peer J peer) ≡ value peer
  unfolding parse_peer encode_peer
  parse_peer-encode_peer peer h =
      let o = J.assign (J.assign J.empty "id" (string peer.id)) "username" (string peer.username) in
      let id : find o "id" ≡ some (string peer.id) = simp json_laws in
      let username : find o "username" ≡ some (string peer.username) = simp json_laws in
      rw (
        parse_peer,
        as_object-object J o,
        required_string-found o "id" peer.id invalid_field id h,
        username_of-found o peer.username username,
      )

  pub parse_peers-map :
      (peers : List PeerIdentity)
      → AllNamed peers
      → parse_peers J (map (encode_peer J) peers) ≡ value peers
  unfolding parse_peers
  parse_peers-map [] h = refl
  parse_peers-map (peer ∷ peers) h = rw (parse_peer-encode_peer peer h.0, parse_peers-map peers h.1)

  pub parse_streaming-map :
      (ids : List PeerId) → AllNonEmpty ids → parse_streaming J (map string ids) ≡ value ids
  unfolding parse_streaming
  parse_streaming-map [] h = refl
  parse_streaming-map (id ∷ ids) h =
      ground (arith, as_string-string J id, parse_streaming-map ids h.1)

  pub optional_array-found :
      (msg : Object) (key : String) (items : List J.Json)
      → find msg key ≡ some (J.array items)
      → optional_array J msg key ≡ value items
  unfolding optional_array
  optional_array-found msg key items found = ground (arith, found, as_array-array J items)

  pub reason-found :
      (msg : Object) (r : WatchRejectReason)
      → find msg "reason" ≡ some (string (reason_to_string r))
      → parse_watch_reject_reason J msg ≡ value r
  unfolding parse_watch_reject_reason reason_of
  reason-found msg unknown_peer found =
      rw (required_string-found msg "reason" "unknown_peer" missing_field found refl)
  reason-found msg not_streaming found =
      rw (required_string-found msg "reason" "not_streaming" missing_field found refl)
  reason-found msg capacity found =
      rw (required_string-found msg "reason" "capacity" missing_field found refl)

  pub optional_peer_id-found :
      (msg : Object) (key s : String)
      → find msg key ≡ some (string s)
      → NonEmpty s
      → optional_peer_id J msg key ≡ some s
  unfolding optional_peer_id optional_string text_or_empty
  optional_peer_id-found msg key s found h =
      ground (arith, found, as_string-string J s, is_null-string J s)

  pub optional_peer_id-missing :
      (msg : Object) (key : String) → find msg key ≡ none → optional_peer_id J msg key ≡ none
  unfolding optional_peer_id optional_string
  optional_peer_id-missing msg key missing = ground (arith, missing)

  pub parse_binding-found :
      (msg : Object) (peer : Option PeerId)
      → find msg "peerId" ≡ some (encode_binding J peer)
      → NonEmptyIfAny peer
      → parse_binding J msg ≡ value peer
  unfolding parse_binding encode_binding
  parse_binding-found msg none found h = ground (arith, found, as_string-null J, is_null-null J)
  parse_binding-found msg (some s) found h = ground (arith, found, as_string-string J s)
