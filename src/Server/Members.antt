-- ===== src/Server/Members.antt =====
-- The server's methods (backend/signaling_server/src/ws_server.cpp), for sessions, tracks and
-- streams, on valid rooms.
use driscord.Common.{
  ℕ, ◌<◌, ◌==◌, ◌≡◌, refl, sym, subst, Bool, true, false, List, [], ◌∷◌, Option, some, String,
  if_cases, length, arith, Option-cases, inl, inr,
}
use driscord.Common.Assoc.{Entries, lookup, keys, contains}
use driscord.Common.Each.{Each, Each-lookup, Each-insert, Each-erase}
use driscord.Signaling.{PeerId, Username}
use driscord.Voice.{Track}
use driscord.Voice.Register.{TrackInfo}
use driscord.Voice.Reach as VoiceReach
use driscord.Screen.Reach as ScreenReach
use driscord.Server.{RoomId, Room, WebSocketServer, Delivery}
use driscord.Server.Rooms.{
  room_of, with_room, update_room, Joined, register_and_build_welcome, leave_room,
  remove_from_routers, unregister_session, register_voice_track, register_screen_track,
  add_streaming_peer, remove_streaming_peer,
}
use driscord.Server.Valid.{
  IsWatching, IsRoomSound, IsRoomValid, IsServerValid, new_room-IsRoomSound, emplace-IsRoomSound,
  emplace-populated, leave_room-watchers,
}

pub put-IsServerValid :
    (s : WebSocketServer) (room_id : RoomId) (room : Room)
    → IsRoomValid room
    → IsServerValid s
    → IsServerValid (with_room s room_id room)
put-IsServerValid s room_id room w valid =
    Each-insert (λ id room. IsRoomValid room) room_id room s.rooms w valid

pub room-IsRoomValid :
    (s : WebSocketServer) (room_id : RoomId) (room : Room)
    → IsServerValid s
    → lookup room_id s.rooms ≡ some room
    → IsRoomValid room
room-IsRoomValid s room_id room valid e =
    Each-lookup (λ id room. IsRoomValid room) room_id s.rooms room valid e

pub update_room-IsServerValid :
    (s : WebSocketServer) (room_id : RoomId) (change : Room → Room × List Delivery)
    → ((room : Room) → IsRoomValid room → IsRoomValid (change room).0)
    → IsServerValid s
    → IsServerValid (update_room s room_id change).0
unfolding update_room
update_room-IsServerValid s room_id change keep valid =
    elim (Option-cases (lookup room_id s.rooms)) [
      | inl e ↦ rw (e, update_room) valid
      | inr (room, e) ↦
          rw (e, update_room)
            (put-IsServerValid s room_id (change room).0
              (keep room (room-IsRoomValid s room_id room valid e)) valid)
    ]

room_of-IsRoomSound :
    (s : WebSocketServer) (room_id : RoomId) → IsServerValid s → IsRoomSound (room_of s room_id)
room_of-IsRoomSound s room_id valid = elim (Option-cases (lookup room_id s.rooms)) [
  | inl e ↦ rw (e, room_of) new_room-IsRoomSound
  | inr (room, e) ↦ rw (e, room_of) (room-IsRoomValid s room_id room valid e).sound
]

pub register-IsServerValid :
    (s : WebSocketServer) (id : PeerId) (room_id : RoomId) (name : Username)
    → IsServerValid s
    → IsServerValid (register_and_build_welcome s id room_id name).server
unfolding register_and_build_welcome
register-IsServerValid s id room_id name valid =
    let room = room_of s room_id in
    if_cases (λ (j : Joined). IsServerValid j.server) s.stopping _ _ (λ _. valid)
      (λ _.
        put-IsServerValid s room_id _
          record {
            populated = emplace-populated room.sessions id name;
            sound = emplace-IsRoomSound room id name (room_of-IsRoomSound s room_id valid);
          }
          valid)

-- A room whose screen router has taken a step, and whose watchers are as given.
pub screen-IsRoomValid :
    (room room' : Room)
    → room'.sessions ≡ room.sessions
    → room'.voice_router ≡ room.voice_router
    → ScreenReach.IsReached room'.screen_router
    → Each (IsWatching room.sessions) room'.video_watchers
    → IsRoomValid room
    → IsRoomValid room'
screen-IsRoomValid room room' sessions voice screen watchers w = record {
  populated = subst (λ m. 0 < length m) (sym sessions) w.populated;
  sound = record {
    voice = subst VoiceReach.IsReached (sym voice) w.sound.voice;
    screen = screen;
    watchers = subst (λ m. Each (IsWatching m) room'.video_watchers) (sym sessions) watchers;
  };
}

pub length-keys : {V : Type 0} (m : Entries V) → length (keys m) ≡ length m
unfolding keys
length-keys [] = refl
length-keys ((k, v) ∷ m) = omega (arith, length-keys m)

module _ (alive : Track → Bool) (session_of : ℕ → Option PeerId) where
  left-IsRoomValid :
      (room : Room) (id : PeerId)
      → IsRoomValid room
      → 0 < length (leave_room id room).sessions
      → IsRoomValid (remove_from_routers alive session_of id (leave_room id room)).0
  unfolding leave_room remove_from_routers
  left-IsRoomValid room id w left = record {
    populated = left;
    sound = record {
      voice = VoiceReach.removed room.voice_router alive id w.sound.voice;
      screen = ScreenReach.removed room.screen_router alive id w.sound.screen;
      watchers = leave_room-watchers room id w.sound.watchers;
    };
  }

  pub unregister-IsServerValid :
      (s : WebSocketServer) (id : PeerId) (room_id : RoomId)
      → IsServerValid s
      → IsServerValid (unregister_session alive session_of s id room_id).0
  unfolding unregister_session
  unregister-IsServerValid s id room_id valid = elim (Option-cases (lookup room_id s.rooms)) [
    | inl e ↦ rw (e, unregister_session) valid
    | inr (room, e) ↦
        let left = leave_room id room in
        rw (e, unregister_session)
          (if_cases (λ (step : WebSocketServer × List Delivery). IsServerValid step.0)
            (contains (keys room.sessions) id) _ _
            (λ _.
              if_cases (λ rooms. Each (λ id room. IsRoomValid room) rooms)
                (length (keys left.sessions) == 0) _ _
                (λ _. Each-erase (λ id room. IsRoomValid room) room_id s.rooms valid)
                (λ more.
                  Each-insert (λ id room. IsRoomValid room) room_id _ s.rooms
                    (left-IsRoomValid room id (room-IsRoomValid s room_id room valid e)
                      (ground (arith, length-keys left.sessions)))
                    valid))
            (λ _. valid))
  ]

  pub voice_track-IsServerValid :
      (s : WebSocketServer) (owner : PeerId) (room_id : RoomId) (track : TrackInfo) (ssrc : ℕ)
      (send : Option ℕ)
      → IsServerValid s
      → IsServerValid (register_voice_track alive session_of s owner room_id track ssrc send).0
  unfolding register_voice_track
  voice_track-IsServerValid s owner room_id track ssrc send =
      update_room-IsServerValid s room_id _ (λ room w. record {
        populated = w.populated;
        sound = record {
          voice = VoiceReach.registered room.voice_router alive owner track ssrc send w.sound.voice;
          screen = w.sound.screen;
          watchers = w.sound.watchers;
        };
      })

  pub screen_track-IsServerValid :
      (s : WebSocketServer) (owner : PeerId) (room_id : RoomId) (track : TrackInfo) (ssrc : ℕ)
      (token : String) (send : Option ℕ)
      → IsServerValid s
      → IsServerValid
          (register_screen_track alive session_of s owner room_id track ssrc token send).0
  unfolding register_screen_track
  screen_track-IsServerValid s owner room_id track ssrc token send =
      update_room-IsServerValid s room_id _ (λ room w.
        screen-IsRoomValid room _ refl refl
          (ScreenReach.registered room.screen_router alive owner track ssrc token send
            w.sound.screen)
          w.sound.watchers w)

  pub add_streaming-IsServerValid :
      (s : WebSocketServer) (id : PeerId) (room_id : RoomId)
      → IsServerValid s
      → IsServerValid (add_streaming_peer alive session_of s id room_id).0
  unfolding add_streaming_peer
  add_streaming-IsServerValid s id room_id = update_room-IsServerValid s room_id _ (λ room w.
      screen-IsRoomValid room _ refl refl
        (ScreenReach.streamed room.screen_router alive id true w.sound.screen) w.sound.watchers w)

  pub remove_streaming-IsServerValid :
      (s : WebSocketServer) (id : PeerId) (room_id : RoomId)
      → IsServerValid s
      → IsServerValid (remove_streaming_peer alive session_of s id room_id).0
  unfolding remove_streaming_peer
  remove_streaming-IsServerValid s id room_id = update_room-IsServerValid s room_id _ (λ room w.
      screen-IsRoomValid room _ refl refl
        (ScreenReach.streamed room.screen_router alive id false w.sound.screen) w.sound.watchers w)
