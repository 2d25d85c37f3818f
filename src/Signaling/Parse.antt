-- ===== src/Signaling/Parse.antt =====
-- `parse_json` and `parse` (core/src/utils/signaling_protocol.cpp), a function for each message.
use driscord.Common.{List, [], ◌∷◌, Option, none, some, String, str_eq, if◌then◌else◌}
use driscord.Signaling.{
  PeerId, Username, PeerIdentity, ConnectionId, voice, screen, WatchRejectReason, unknown_peer,
  not_streaming, capacity, ParseError, invalid_json, missing_type, unknown_type, missing_field,
  invalid_field, Message, welcome, peer_joined, peer_left, offer, answer, candidate, track_binding,
  streaming_start, streaming_stop, watch_start, watch_stop, watch_rejected, Expected, value,
  unexpected, ◌>>=◌, is_empty,
}
use driscord.Signaling.Json.{JsonLibrary}

-- `false` of the C++ function, with the error that its caller returns.
abbrev pub or_fail : Option String → ParseError → Expected String
or_fail none e = unexpected e
or_fail (some s) e = if is_empty s then unexpected e else value s

module _ (J : JsonLibrary) where
  open J use {Json, Object, as_object, as_string, as_array, is_null, find, parse_text}

  unfoldable pub find_string : Object → String → Option String
  find_string msg key = elim (find msg key) [ none ↦ none | some v ↦ as_string v ]

  unfoldable pub required_string : Object → String → ParseError → Expected String
  required_string msg key e = or_fail (find_string msg key) e

  -- A field that is not a text counts as an empty one.
  unfoldable pub text_or_empty : Json → Option String
  text_or_empty v =
      if is_null v then none else elim (as_string v) [ none ↦ some "" | some s ↦ some s ]

  unfoldable pub optional_string : Object → String → Option String
  optional_string msg key = elim (find msg key) [ none ↦ none | some v ↦ text_or_empty v ]

  unfoldable pub optional_peer_id : Object → String → Option PeerId
  optional_peer_id msg key = elim (optional_string msg key) [
    | none ↦ none
    | some s ↦ if is_empty s then none else some s
  ]

  -- `if (username && !username->empty()) value.username = …`, over an empty name.
  unfoldable pub username_of : Object → Username
  username_of msg = elim (optional_string msg "username") [ none ↦ "" | some s ↦ s ]

  unfoldable pub connection_of : String → Expected ConnectionId
  connection_of s =
      if str_eq s "voice"
      then value voice
      else if str_eq s "screen"
      then value screen
      else unexpected invalid_field

  unfoldable pub parse_connection : Object → Expected ConnectionId
  parse_connection msg = elim (find msg "connection") [
    | none ↦ unexpected missing_field
    | some v ↦ elim (as_string v) [ none ↦ unexpected invalid_field | some s ↦ connection_of s ]
  ]

  unfoldable pub reason_of : String → Expected WatchRejectReason
  reason_of s =
      if str_eq s "unknown_peer"
      then value unknown_peer
      else if str_eq s "not_streaming"
      then value not_streaming
      else if str_eq s "capacity"
      then value capacity
      else unexpected invalid_field

  unfoldable pub parse_watch_reject_reason : Object → Expected WatchRejectReason
  parse_watch_reject_reason msg = required_string msg "reason" missing_field >>= reason_of

  unfoldable pub parse_peer : Json → Expected PeerIdentity
  parse_peer item = elim (as_object item) [
    | none ↦ unexpected invalid_field
    | some o ↦ required_string o "id" invalid_field >>= λ id.
        value record { id = id; username = username_of o }
  ]

  unfoldable pub parse_peers : List Json → Expected (List PeerIdentity)
  parse_peers [] = value []
  parse_peers (item ∷ items) =
      parse_peer item >>= λ peer. parse_peers items >>= λ peers. value (peer ∷ peers)

  -- An empty identifier is left out.
  unfoldable pub parse_streaming : List Json → Expected (List PeerId)
  parse_streaming [] = value []
  parse_streaming (item ∷ items) = elim (as_string item) [
    | none ↦ unexpected invalid_field
    | some id ↦ parse_streaming items >>= λ ids. value (if is_empty id then ids else id ∷ ids)
  ]

  -- An array that may be absent.
  unfoldable pub optional_array : Object → String → Expected (List Json)
  optional_array msg key = elim (find msg key) [
    | none ↦ value []
    | some v ↦ elim (as_array v) [ none ↦ unexpected invalid_field | some items ↦ value items ]
  ]

  unfoldable pub parse_welcome : Object → Expected Message
  parse_welcome msg = do
    id ← required_string msg "id" missing_field
    items ← optional_array msg "peers"
    peers ← parse_peers items
    items ← optional_array msg "streaming_peers"
    streaming_peers ← parse_streaming items
    value (welcome id peers streaming_peers)

  unfoldable pub parse_peer_joined : Object → Expected Message
  parse_peer_joined msg = do
    id ← required_string msg "id" missing_field
    value (peer_joined id (username_of msg))

  unfoldable pub parse_description : (String → ConnectionId → Message) → Object → Expected Message
  parse_description make msg = do
    sdp ← required_string msg "sdp" missing_field
    connection ← parse_connection msg
    value (make sdp connection)

  unfoldable pub parse_candidate : Object → Expected Message
  parse_candidate msg = do
    text ← required_string msg "candidate" missing_field
    sdp_mid ← required_string msg "sdpMid" missing_field
    connection ← parse_connection msg
    value (candidate text sdp_mid connection)

  -- The bound publisher: a text, or null for none.
  unfoldable pub parse_binding : Object → Expected (Option PeerId)
  parse_binding msg = elim (find msg "peerId") [
    | none ↦ unexpected missing_field
    | some v ↦ elim (as_string v) [
      | none ↦ if is_null v then value none else unexpected invalid_field
      | some s ↦ if is_empty s then unexpected invalid_field else value (some s)
    ]
  ]

  unfoldable pub parse_track_binding : Object → Expected Message
  parse_track_binding msg = do
    sdp_mid ← required_string msg "sdpMid" missing_field
    peer_id ← parse_binding msg
    connection ← parse_connection msg
    value (track_binding sdp_mid peer_id connection)

  unfoldable pub parse_of_peer : String → (PeerId → Message) → Object → Expected Message
  parse_of_peer key make msg = required_string msg key missing_field >>= λ id. value (make id)

  unfoldable pub parse_watch_rejected : Object → Expected Message
  parse_watch_rejected msg = do
    peer_id ← required_string msg "peerId" missing_field
    reason ← parse_watch_reject_reason msg
    value (watch_rejected peer_id reason)

  unfoldable pub dispatch : String → Object → Expected Message
  dispatch type msg =
      if str_eq type "welcome"
      then parse_welcome msg
      else if str_eq type "peer_joined"
      then parse_peer_joined msg
      else if str_eq type "peer_left"
      then parse_of_peer "id" peer_left msg
      else if str_eq type "offer"
      then parse_description offer msg
      else if str_eq type "answer"
      then parse_description answer msg
      else if str_eq type "candidate"
      then parse_candidate msg
      else if str_eq type "track_binding"
      then parse_track_binding msg
      else if str_eq type "streaming_start"
      then value (streaming_start (optional_peer_id msg "from"))
      else if str_eq type "streaming_stop"
      then value (streaming_stop (optional_peer_id msg "from"))
      else if str_eq type "watch_start"
      then parse_of_peer "peerId" watch_start msg
      else if str_eq type "watch_stop"
      then parse_of_peer "peerId" watch_stop msg
      else if str_eq type "watch_rejected"
      then parse_watch_rejected msg
      else unexpected unknown_type

  unfoldable pub parse_json : Json → Expected Message
  parse_json v = elim (as_object v) [
    | none ↦ unexpected invalid_field
    | some msg ↦ required_string msg "type" missing_type >>= λ type. dispatch type msg
  ]

  unfoldable pub parse : String → Expected Message
  parse raw = elim (parse_text raw) [ none ↦ unexpected invalid_json | some v ↦ parse_json v ]
