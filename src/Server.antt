-- ===== src/Server.antt =====
-- The WebSocket server's rooms (backend/signaling_server/src/ws_server.cpp and .hpp): who is in a
-- room, who streams and who watches whom, and the two routers of each room. A session is known by its
-- identifier and its user's name. A room's routers are made with the room. What is sent is the message
-- that `signaling::dump` is given. Rooms and sessions have no order that the code relies on.
pub mod Notices
pub mod Sent
pub mod Rooms
pub mod Writes
pub mod Url
pub mod Valid
pub mod Members
pub mod Watch
pub mod Reach
pub mod Effects
pub mod Leave
use driscord.Common.{
  ℕ, ◌+◌, ◌==◌, Bool, true, false, not, ◌||◌, List, [], ◌∷◌, ◌++◌, Option, none, some, String,
  str_eq, if◌then◌else◌, length, map,
}
use driscord.Common.Assoc.{Entries, lookup, insert, keys, contains}
use driscord.Signaling.{PeerId, Username, PeerIdentity, Message}
use driscord.Voice.{VoiceRouter}
use driscord.Screen.{ScreenRouter}
use driscord.Voice
use driscord.Screen

abbrev pub RoomId : Type 0
RoomId = String

pub record Room : Type 0 where
  pub sessions : Entries Username
  pub streaming_peers : List PeerId
  pub video_watchers : Entries (List PeerId)
  pub voice_router : VoiceRouter
  pub screen_router : ScreenRouter

abbrev pub new_room : Room
new_room = record {
  sessions = [];
  streaming_peers = [];
  video_watchers = [];
  voice_router = Voice.initial;
  screen_router = Screen.initial;
}

pub record WebSocketServer : Type 0 where
  pub rooms : Entries Room
  pub stopping : Bool

abbrev pub new_server : WebSocketServer
new_server = record { rooms = []; stopping = false }

-- A message on its way to a session.
pub record Delivery : Type 0 where
  pub to : PeerId
  pub message : Message

-- `stream_defaults::kScreenReceiveSlots`.
abbrev pub screen_receive_slots : ℕ
screen_receive_slots = 8

-- `unordered_set::insert` and `erase`, `unordered_map::emplace`.
unfoldable pub set_insert : PeerId → List PeerId → List PeerId
set_insert id ids = if contains ids id then ids else ids ++ id ∷ []

unfoldable pub set_erase : PeerId → List PeerId → List PeerId
set_erase gone [] = []
set_erase gone (id ∷ ids) =
    let rest = set_erase gone ids in if str_eq id gone then rest else id ∷ rest

unfoldable pub emplace : PeerId → Username → Entries Username → Entries Username
emplace id name sessions = if contains (keys sessions) id then sessions else insert id name sessions

abbrev pub to_all : List PeerId → Message → List Delivery
to_all ids message = map (λ id. record { to = id; message = message }) ids
