-- ===== src/Server/Reach.antt =====
-- The server's methods (backend/signaling_server/src/ws_server.cpp) on valid rooms, and the states that
-- they reach.
use driscord.Common.{ℕ, Bool, Option, String}
use driscord.Signaling.{
  PeerId, Username, Message, welcome, peer_joined, peer_left, offer, answer, candidate,
  track_binding, streaming_start, streaming_stop, watch_start, watch_stop, watch_rejected,
}
use driscord.Voice.{Track}
use driscord.Voice.Register.{TrackInfo}
use driscord.Server.{RoomId, WebSocketServer, new_server}
use driscord.Server.Rooms.{
  register_and_build_welcome, unregister_session, register_voice_track, register_screen_track,
  on_message, stop,
}
use driscord.Server.Valid.{IsServerValid}
use driscord.Server.Members.{
  register-IsServerValid, unregister-IsServerValid, voice_track-IsServerValid,
  screen_track-IsServerValid, add_streaming-IsServerValid, remove_streaming-IsServerValid,
}
use driscord.Server.Watch.{add_watcher-IsServerValid, remove_watcher-IsServerValid}

module _ (alive : Track → Bool) (session_of : ℕ → Option PeerId) where
  pub on_message-IsServerValid :
      (s : WebSocketServer) (id : PeerId) (room_id : RoomId) (message : Message)
      → IsServerValid s
      → IsServerValid (on_message alive session_of s id room_id message).0
  unfolding on_message
  on_message-IsServerValid s id room_id (streaming_start from) w =
      add_streaming-IsServerValid alive session_of s id room_id w
  on_message-IsServerValid s id room_id (streaming_stop from) w =
      remove_streaming-IsServerValid alive session_of s id room_id w
  on_message-IsServerValid s id room_id (watch_start p) w =
      add_watcher-IsServerValid alive session_of s id room_id p w
  on_message-IsServerValid s id room_id (watch_stop p) w =
      remove_watcher-IsServerValid alive session_of s id room_id p w
  on_message-IsServerValid s id room_id (welcome a b c) w = w
  on_message-IsServerValid s id room_id (peer_joined a b) w = w
  on_message-IsServerValid s id room_id (peer_left a) w = w
  on_message-IsServerValid s id room_id (offer a b) w = w
  on_message-IsServerValid s id room_id (answer a b) w = w
  on_message-IsServerValid s id room_id (candidate a b c) w = w
  on_message-IsServerValid s id room_id (track_binding a b c) w = w
  on_message-IsServerValid s id room_id (watch_rejected a b) w = w

-- The states that the server reaches, whatever a client sends and whatever tracks exist at each call.
pub data IsReached : WebSocketServer → Type 0 where
  started : IsReached new_server
  joined :
      (s : WebSocketServer) (id : PeerId) (room_id : RoomId) (name : Username)
      → IsReached s
      → IsReached (register_and_build_welcome s id room_id name).server
  left :
      (s : WebSocketServer) (alive : Track → Bool) (session_of : ℕ → Option PeerId) (id : PeerId)
      (room_id : RoomId)
      → IsReached s
      → IsReached (unregister_session alive session_of s id room_id).0
  spoke :
      (s : WebSocketServer) (alive : Track → Bool) (session_of : ℕ → Option PeerId) (owner : PeerId)
      (room_id : RoomId) (track : TrackInfo) (ssrc : ℕ) (send : Option ℕ)
      → IsReached s
      → IsReached (register_voice_track alive session_of s owner room_id track ssrc send).0
  shared :
      (s : WebSocketServer) (alive : Track → Bool) (session_of : ℕ → Option PeerId) (owner : PeerId)
      (room_id : RoomId) (track : TrackInfo) (ssrc : ℕ) (token : String) (send : Option ℕ)
      → IsReached s
      → IsReached (register_screen_track alive session_of s owner room_id track ssrc token send).0
  received :
      (s : WebSocketServer) (alive : Track → Bool) (session_of : ℕ → Option PeerId) (id : PeerId)
      (room_id : RoomId) (message : Message)
      → IsReached s
      → IsReached (on_message alive session_of s id room_id message).0
  stopped : (s : WebSocketServer) → IsReached s → IsReached (stop s)

stop-IsServerValid : (s : WebSocketServer) → IsServerValid (stop s)
unfolding stop
stop-IsServerValid s = tt

-- In every state of the server that joins, leaves, registered tracks, messages of any kind from
-- anybody and stop reach: each room has a session; each watcher is in its room and watches at
-- least one and at most kScreenReceiveSlots others, all of them in the room; and the two
-- routers of a room are in states that their own methods reach.
pub IsReached-IsServerValid : (s : WebSocketServer) → IsReached s → IsServerValid s
IsReached-IsServerValid s started = tt
IsReached-IsServerValid s (joined s0 id room_id name h) =
    register-IsServerValid s0 id room_id name (IsReached-IsServerValid s0 h)
IsReached-IsServerValid s (left s0 alive session_of id room_id h) =
    unregister-IsServerValid alive session_of s0 id room_id (IsReached-IsServerValid s0 h)
IsReached-IsServerValid s (spoke s0 alive session_of owner room_id track ssrc send h) =
    voice_track-IsServerValid alive session_of s0 owner room_id track ssrc send
      (IsReached-IsServerValid s0 h)
IsReached-IsServerValid s (shared s0 alive session_of owner room_id track ssrc token send h) =
    screen_track-IsServerValid alive session_of s0 owner room_id track ssrc token send
      (IsReached-IsServerValid s0 h)
IsReached-IsServerValid s (received s0 alive session_of id room_id message h) =
    on_message-IsServerValid alive session_of s0 id room_id message (IsReached-IsServerValid s0 h)
IsReached-IsServerValid s (stopped s0 h) = stop-IsServerValid s0
