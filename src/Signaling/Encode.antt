-- ===== src/Signaling/Encode.antt =====
-- `encode` and `dump` (core/src/utils/signaling_protocol.cpp).
use driscord.Common.{Option, none, some, String, map, if◌then◌else◌}
use driscord.Signaling.{
  PeerId, PeerIdentity, ConnectionId, Message, welcome, peer_joined, peer_left, offer, answer,
  candidate, track_binding, streaming_start, streaming_stop, watch_start, watch_stop,
  watch_rejected, connection_to_string, reason_to_string, is_empty,
}
use driscord.Signaling.Json.{JsonLibrary}

module _ (J : JsonLibrary) where
  open J use {Json, Object, object, string, array, null, empty, assign, dump_text}

  unfoldable pub with_type : String → Object
  with_type type = assign empty "type" (string type)

  unfoldable pub add_from : Object → Option PeerId → Object
  add_from msg none = msg
  add_from msg (some from) = if is_empty from then msg else assign msg "from" (string from)

  unfoldable pub add_connection : Object → ConnectionId → Object
  add_connection msg connection = assign msg "connection" (string (connection_to_string connection))

  unfoldable pub encode_peer : PeerIdentity → Json
  encode_peer peer =
      object (assign (assign empty "id" (string peer.id)) "username" (string peer.username))

  unfoldable pub encode_binding : Option PeerId → Json
  encode_binding none = null
  encode_binding (some peer) = string peer

  unfoldable pub encode_object : Message → Object
  unfolding with_type add_from add_connection encode_peer encode_binding
  encode_object (welcome id peers streaming_peers) =
      assign
        (assign (assign (with_type "welcome") "id" (string id)) "peers"
          (array (map encode_peer peers)))
        "streaming_peers" (array (map string streaming_peers))
  encode_object (peer_joined id username) =
      assign (assign (with_type "peer_joined") "id" (string id)) "username" (string username)
  encode_object (peer_left id) = assign (with_type "peer_left") "id" (string id)
  encode_object (offer sdp connection) =
      add_connection (assign (with_type "offer") "sdp" (string sdp)) connection
  encode_object (answer sdp connection) =
      add_connection (assign (with_type "answer") "sdp" (string sdp)) connection
  encode_object (candidate text sdp_mid connection) =
      add_connection
        (assign (assign (with_type "candidate") "candidate" (string text)) "sdpMid"
          (string sdp_mid))
        connection
  encode_object (track_binding sdp_mid peer_id connection) =
      add_connection
        (assign (assign (with_type "track_binding") "sdpMid" (string sdp_mid)) "peerId"
          (encode_binding peer_id))
        connection
  encode_object (streaming_start from) = add_from (with_type "streaming_start") from
  encode_object (streaming_stop from) = add_from (with_type "streaming_stop") from
  encode_object (watch_start peer_id) = assign (with_type "watch_start") "peerId" (string peer_id)
  encode_object (watch_stop peer_id) = assign (with_type "watch_stop") "peerId" (string peer_id)
  encode_object (watch_rejected peer_id reason) =
      assign (assign (with_type "watch_rejected") "peerId" (string peer_id)) "reason"
        (string (reason_to_string reason))

  unfoldable pub encode : Message → Json
  unfolding encode_object
  encode message = object (encode_object message)

  unfoldable pub dump : Message → String
  unfolding encode
  dump message = dump_text (encode message)
