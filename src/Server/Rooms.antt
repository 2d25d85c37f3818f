-- ===== src/Server/Rooms.antt =====
-- The methods of `WebSocketServer` and the handlers of `Session`
-- (backend/signaling_server/src/ws_server.cpp). A method takes the mutex of the rooms and then calls
-- the routers: here both are one step. A router of a room that is gone is not kept.
use driscord.Common.{
  ℕ, ◌+◌, ◌==◌, leb, Bool, true, false, not, ◌||◌, List, [], ◌∷◌, ◌++◌, Option, none, some, String,
  str_eq, if◌then◌else◌, length, map,
}
use driscord.Common.Assoc.{Entries, lookup, insert, erase, keys, contains}
use driscord.Signaling.{
  PeerId, Username, PeerIdentity, Message, WatchRejectReason, unknown_peer, not_streaming, capacity,
  Expected, value, unexpected, welcome, peer_joined, peer_left, offer, answer, candidate,
  track_binding, streaming_start, streaming_stop, watch_start, watch_stop, watch_rejected,
}
use driscord.Voice.{Track}
use driscord.Voice.Register.{TrackInfo}
use driscord.Voice.Register
use driscord.Screen.Methods
use driscord.Server.Notices.{publish_voice, publish_screen}
use driscord.Server.{
  RoomId, Room, new_room, WebSocketServer, Delivery, screen_receive_slots, set_insert, set_erase,
  emplace, to_all,
}

abbrev identity_of : String × Username → PeerIdentity
identity_of (id, name) = record { id = id; username = name }

abbrev pub room_of : WebSocketServer → RoomId → Room
room_of s room_id = elim (lookup room_id s.rooms) [ none ↦ new_room | some room ↦ room ]

abbrev pub with_room : WebSocketServer → RoomId → Room → WebSocketServer
with_room s room_id room = record s { rooms = insert room_id room s.rooms }

-- A change of one room, if it is there, and what it sends.
unfoldable pub update_room :
    WebSocketServer → RoomId → (Room → Room × List Delivery) → WebSocketServer × List Delivery
update_room s room_id change = elim (lookup room_id s.rooms) [
  | none ↦ (s, [])
  | some room ↦ (with_room s room_id (change room).0, (change room).1)
]

-- What `register_and_build_welcome` returns is the welcome; the other sessions are told.
pub record Joined : Type 0 where
  pub reply : Option Message
  pub server : WebSocketServer
  pub sent : List Delivery

unfoldable pub register_and_build_welcome : WebSocketServer → PeerId → RoomId → Username → Joined
register_and_build_welcome s id room_id name =
    let room = room_of s room_id in
    let reply = welcome id (map identity_of room.sessions) room.streaming_peers in
    let joined = with_room s room_id (record room { sessions = emplace id name room.sessions }) in
    if s.stopping then record { reply = none; server = s; sent = [] } else record {
      reply = some reply;
      server = joined;
      sent = to_all (keys room.sessions) (peer_joined id name);
    }

-- The watchers once the peer is erased from what they watch; one who watches nobody is left out.
unfoldable pub drop_watched : PeerId → Entries (List PeerId) → Entries (List PeerId)
drop_watched gone [] = []
drop_watched gone ((id, watched) ∷ watchers) =
    let rest = drop_watched gone watchers in
    let left = set_erase gone watched in if length left == 0 then rest else (id, left) ∷ rest

unfoldable pub leave_room : PeerId → Room → Room
leave_room id room = record room {
  sessions = erase id room.sessions;
  streaming_peers = set_erase id room.streaming_peers;
  video_watchers = drop_watched id (erase id room.video_watchers);
}

abbrev pub watched_by : Room → PeerId → List PeerId
watched_by room id = elim (lookup id room.video_watchers) [ none ↦ [] | some watched ↦ watched ]

-- A watcher who watches nobody any more is erased.
abbrev pub unwatch : PeerId → PeerId → Entries (List PeerId) → Entries (List PeerId)
unwatch id publisher_id watchers = elim (lookup id watchers) [
  | none ↦ watchers
  | some watched ↦
      let left = set_erase publisher_id watched in
      if length left == 0 then erase id watchers else insert id left watchers
]

unfoldable pub broadcast : WebSocketServer → PeerId → RoomId → Message → List Delivery
broadcast s from_id room_id message = elim (lookup room_id s.rooms) [
  | none ↦ []
  | some room ↦ to_all (set_erase from_id (keys room.sessions)) message
]

unfoldable pub send_to : WebSocketServer → PeerId → RoomId → Message → List Delivery
send_to s target_id room_id message = elim (lookup room_id s.rooms) [
  | none ↦ []
  | some room ↦ elim (lookup target_id room.sessions) [
    | none ↦ []
    | some name ↦ record { to = target_id; message = message } ∷ []
  ]
]

-- What the sessions that remain are told of one that leaves.
abbrev pub leave_messages : Room → PeerId → List Message
leave_messages room id =
    let was_streaming = contains room.streaming_peers id in
    let stopped = if was_streaming then streaming_stop (some id) ∷ [] else [] in
    stopped ++ peer_left id ∷ []

unfoldable pub send_each : List PeerId → List Message → List Delivery
send_each [] messages = []
send_each (to ∷ rest) messages =
    map (λ message. record { to = to; message = message }) messages ++ send_each rest messages

module _ (alive : Track → Bool) (session_of : ℕ → Option PeerId) where
  unfoldable pub remove_from_routers : PeerId → Room → Room × List Delivery
  remove_from_routers id room =
      let (voice_router, voice_notices) = Register.remove_peer alive room.voice_router id in
      let (screen_router, screen_notices) = Methods.remove_peer alive room.screen_router id in
      (
        record room { voice_router = voice_router; screen_router = screen_router },
        publish_voice session_of voice_notices ++ publish_screen session_of screen_notices,
      )

  -- The routers of a room that is gone with its last session are told as well.
  unfoldable pub unregister_session :
      WebSocketServer → PeerId → RoomId → WebSocketServer × List Delivery
  unregister_session s id room_id = elim (lookup room_id s.rooms) [
    | none ↦ (s, [])
    | some room ↦
        let left = leave_room id room in
        let remaining = keys left.sessions in
        let (removed, bindings) = remove_from_routers id left in
        let kept = insert room_id removed s.rooms in
        let rooms = if length remaining == 0 then erase room_id s.rooms else kept in
        if contains (keys room.sessions) id
        then (record s { rooms = rooms }, bindings ++ send_each remaining (leave_messages room id))
        else (s, [])
  ]

  unfoldable pub register_voice_track :
      WebSocketServer → PeerId → RoomId → TrackInfo → ℕ → Option ℕ → WebSocketServer × List Delivery
  register_voice_track s owner room_id track ssrc send = update_room s room_id (λ room.
      let (router, notices) =
        Register.register_track alive room.voice_router owner track ssrc send in
      (record room { voice_router = router }, publish_voice session_of notices))

  unfoldable pub register_screen_track :
      WebSocketServer
      → PeerId
      → RoomId
      → TrackInfo
      → ℕ
      → String
      → Option ℕ
      → WebSocketServer × List Delivery
  register_screen_track s owner room_id track ssrc token send = update_room s room_id (λ room.
      let (router, notices) =
        Methods.register_track alive room.screen_router owner track ssrc token send in
      (record room { screen_router = router }, publish_screen session_of notices))

  unfoldable pub add_streaming_peer :
      WebSocketServer → PeerId → RoomId → WebSocketServer × List Delivery
  add_streaming_peer s id room_id = update_room s room_id (λ room.
      let (router, notices) = Methods.set_streaming alive room.screen_router id true in
      (
        record room {
          streaming_peers = set_insert id room.streaming_peers;
          screen_router = router;
        },
        publish_screen session_of notices,
      ))

  unfoldable pub remove_streaming_peer :
      WebSocketServer → PeerId → RoomId → WebSocketServer × List Delivery
  remove_streaming_peer s id room_id = update_room s room_id (λ room.
      let (router, notices) = Methods.set_streaming alive room.screen_router id false in
      (
        record room { streaming_peers = set_erase id room.streaming_peers; screen_router = router },
        publish_screen session_of notices,
      ))

  unfoldable pub add_video_watcher :
      WebSocketServer → PeerId → RoomId → PeerId → WebSocketServer × List Delivery
  add_video_watcher s id room_id publisher_id = elim (lookup room_id s.rooms) [
    | none ↦ (s, [])
    | some room ↦
        let watched = watched_by room id in
        let rejected : WatchRejectReason → WebSocketServer × List Delivery =
          λ reason. (s, record { to = id; message = watch_rejected publisher_id reason } ∷ []) in
        let (router, notices) =
          Methods.set_watching alive room.screen_router id publisher_id true in
        let accepted = record room {
          video_watchers = insert id (set_insert publisher_id watched) room.video_watchers;
          screen_router = router;
        } in
        if not (contains (keys room.sessions) id)
        then (s, [])
        else if not (contains (keys room.sessions) publisher_id) || str_eq id publisher_id
        then rejected unknown_peer
        else if not (contains room.streaming_peers publisher_id)
        then rejected not_streaming
        else if contains watched publisher_id
        then (s, [])
        else if leb screen_receive_slots (length watched)
        then rejected capacity
        else (with_room s room_id accepted, publish_screen session_of notices)
  ]

  unfoldable pub remove_video_watcher :
      WebSocketServer → PeerId → RoomId → PeerId → WebSocketServer × List Delivery
  remove_video_watcher s id room_id publisher_id = update_room s room_id (λ room.
      let (router, notices) = Methods.set_watching alive room.screen_router id publisher_id false in
      (
        record room {
          video_watchers = unwatch id publisher_id room.video_watchers;
          screen_router = router;
        },
        publish_screen session_of notices,
      ))

  -- The dispatch of `on_read`: offers and candidates go to the media connections, and what a client
  -- does not send is ignored. A text that does not parse changes nothing.
  unfoldable pub on_message :
      WebSocketServer → PeerId → RoomId → Message → WebSocketServer × List Delivery
  on_message s id room_id (streaming_start from) =
      let (s', bindings) = add_streaming_peer s id room_id in
      (s', bindings ++ broadcast s' id room_id (streaming_start (some id)))
  on_message s id room_id (streaming_stop from) =
      let (s', bindings) = remove_streaming_peer s id room_id in
      (s', bindings ++ broadcast s' id room_id (streaming_stop (some id)))
  on_message s id room_id (watch_start publisher_id) = add_video_watcher s id room_id publisher_id
  on_message s id room_id (watch_stop publisher_id) = remove_video_watcher s id room_id publisher_id
  on_message s id room_id (welcome a b c) = (s, [])
  on_message s id room_id (peer_joined a b) = (s, [])
  on_message s id room_id (peer_left a) = (s, [])
  on_message s id room_id (offer a b) = (s, [])
  on_message s id room_id (answer a b) = (s, [])
  on_message s id room_id (candidate a b c) = (s, [])
  on_message s id room_id (track_binding a b c) = (s, [])
  on_message s id room_id (watch_rejected a b) = (s, [])

  unfoldable pub on_read :
      WebSocketServer → PeerId → RoomId → Expected Message → WebSocketServer × List Delivery
  on_read s id room_id (value message) = on_message s id room_id message
  on_read s id room_id (unexpected error) = (s, [])

unfoldable pub stop : WebSocketServer → WebSocketServer
stop s = record s { stopping = true; rooms = [] }

-- The sessions of every room, and of one.
unfoldable pub active_sessions : Entries Room → ℕ
active_sessions [] = 0
active_sessions ((room_id, room) ∷ rooms) = length room.sessions + active_sessions rooms

unfoldable pub active_sessions_of : WebSocketServer → RoomId → ℕ
active_sessions_of s room_id = elim (lookup room_id s.rooms) [
  | none ↦ 0
  | some room ↦ length room.sessions
]
