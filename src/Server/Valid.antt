-- ===== src/Server/Valid.antt =====
-- When a room of the server (backend/signaling_server/src/ws_server.cpp) is valid, and the sets of who
-- watches whom.
use driscord.Common.{
  suc, ◌<◌, ◌≤◌, ◌==◌, ◌≡◌, refl, true, false, ◌||◌, List, [], ◌∷◌, ◌++◌, str_eq, eq_iff,
  if◌then◌else◌, if_cases, length, arith,
}
use driscord.Common.Assoc.{
  Entries, erase, keys, contains, contains-keys-insert, contains-keys-erase,
}
use driscord.Common.Each.{Each, Each-erased, Each-weaken}
use driscord.Signaling.{PeerId, Username}
use driscord.Voice.Reach as VoiceReach
use driscord.Screen.Reach as ScreenReach
use driscord.Server.{
  Room, new_room, WebSocketServer, screen_receive_slots, set_insert, set_erase, emplace,
}
use driscord.Server.Rooms.{drop_watched, leave_room}

-- A watcher is in the room, and watches from one to `kScreenReceiveSlots` others of it.
pub record IsWatching (sessions : Entries Username) (id : PeerId) (watched : List PeerId)
    : Type 0 where
  pub member : contains (keys sessions) id ≡ true
  pub some_one : 0 < length watched
  pub few : length watched ≤ screen_receive_slots
  pub others :
      (q : PeerId)
      → contains watched q ≡ true
      → (contains (keys sessions) q ≡ true) × (str_eq q id ≡ false)

-- The room's routers are in states that their methods reach.
pub record IsRoomSound (room : Room) : Type 0 where
  pub voice : VoiceReach.IsReached room.voice_router
  pub screen : ScreenReach.IsReached room.screen_router
  pub watchers : Each (IsWatching room.sessions) room.video_watchers

-- A room that the server keeps has a session.
pub record IsRoomValid (room : Room) : Type 0 where
  pub populated : 0 < length room.sessions
  pub sound : IsRoomSound room

abbrev pub IsServerValid : WebSocketServer → Type 0
IsServerValid s = Each (λ id room. IsRoomValid room) s.rooms

pub new_room-IsRoomSound : IsRoomSound new_room
new_room-IsRoomSound = record {
  voice = VoiceReach.started;
  screen = ScreenReach.started;
  watchers = tt;
}

-- The sets.
contains-append :
    (q id : PeerId) (ids : List PeerId)
    → contains (ids ++ id ∷ []) q ≡ (contains ids q || str_eq id q)
unfolding contains
contains-append q id [] = ground arith
contains-append q id (j ∷ ids) = ground (arith, contains-append q id ids)

length-append_one : (id : PeerId) (ids : List PeerId) → length (ids ++ id ∷ []) ≡ suc (length ids)
length-append_one id [] = refl
length-append_one id (j ∷ ids) = omega (arith, length-append_one id ids)

pub contains-set_insert :
    (q id : PeerId) (ids : List PeerId)
    → contains (set_insert id ids) q ≡ (contains ids q || str_eq id q)
unfolding set_insert
contains-set_insert q id ids = ground (arith, contains-append q id ids, eq_iff id q)

pub length-set_insert :
    (id : PeerId) (ids : List PeerId)
    → contains ids id ≡ false
    → length (set_insert id ids) ≡ suc (length ids)
unfolding set_insert
length-set_insert id ids e = ground (arith, length-append_one id ids)

pub contains-set_erase :
    (q gone : PeerId) (ids : List PeerId)
    → contains (set_erase gone ids) q ≡ (if str_eq gone q then false else contains ids q)
unfolding set_erase contains
contains-set_erase q gone [] = ground arith
contains-set_erase q gone (j ∷ ids) =
    ground (arith, contains-set_erase q gone ids, eq_iff j gone, eq_iff j q, eq_iff gone q)

pub length-set_erase :
    (gone : PeerId) (ids : List PeerId) → length (set_erase gone ids) ≤ length ids
unfolding set_erase
length-set_erase gone [] = omega arith
length-set_erase gone (j ∷ ids) = ground (arith, length-set_erase gone ids)

pub contains-emplace :
    (q id : PeerId) (name : Username) (sessions : Entries Username)
    → contains (keys (emplace id name sessions)) q ≡ (str_eq id q || contains (keys sessions) q)
unfolding emplace
contains-emplace q id name sessions =
    ground (arith, contains-keys-insert id q name sessions, eq_iff id q)

-- Somebody watches the same, in a room with more sessions.
IsWatching-more :
    (a b : Entries Username)
    → ((q : PeerId) → contains (keys a) q ≡ true → contains (keys b) q ≡ true)
    → (id : PeerId) (watched : List PeerId) → IsWatching a id watched
    → IsWatching b id watched
IsWatching-more a b more id watched w = record {
  member = more id w.member;
  some_one = w.some_one;
  few = w.few;
  others = λ q h. (more q (w.others q h).0, (w.others q h).1);
}

pub emplace-IsRoomSound :
    (room : Room) (id : PeerId) (name : Username)
    → IsRoomSound room
    → IsRoomSound (record room { sessions = emplace id name room.sessions })
emplace-IsRoomSound room id name w = record {
  voice = w.voice;
  screen = w.screen;
  watchers =
      Each-weaken (IsWatching room.sessions) (IsWatching (emplace id name room.sessions))
        (IsWatching-more room.sessions (emplace id name room.sessions)
          (λ q h. ground (arith, contains-emplace q id name room.sessions)))
        room.video_watchers w.watchers;
}

contains-populated :
    (sessions : Entries Username) (q : PeerId)
    → contains (keys sessions) q ≡ true
    → 0 < length sessions
unfolding contains keys
contains-populated [] q h = absurd cc
contains-populated (s ∷ sessions) q h = omega arith

pub emplace-populated :
    (sessions : Entries Username) (id : PeerId) (name : Username)
    → 0 < length (emplace id name sessions)
emplace-populated sessions id name =
    contains-populated (emplace id name sessions) id
      (ground (arith, contains-emplace id id name sessions, eq_iff id id))

-- Without a peer that left.
set_erase-IsWatching :
    (sessions : Entries Username) (gone id : PeerId) (watched : List PeerId)
    → str_eq id gone ≡ false
    → IsWatching sessions id watched
    → 0 < length (set_erase gone watched)
    → IsWatching (erase gone sessions) id (set_erase gone watched)
set_erase-IsWatching sessions gone id watched other w left = record {
  member =
      ground
        (arith, contains-keys-erase gone id sessions, w.member, eq_iff gone id, eq_iff id gone);
  some_one = left;
  few = omega (arith, length-set_erase gone watched, w.few);
  others = λ q h.
      let before : contains watched q ≡ true = ground (arith, contains-set_erase q gone watched) in
      (
        ground (
          arith,
          contains-keys-erase gone q sessions,
          contains-set_erase q gone watched,
          (w.others q before).0,
        ),
        (w.others q before).1,
      );
}

drop_watched-IsWatching :
    (sessions : Entries Username) (gone : PeerId) (m : Entries (List PeerId))
    → Each (λ id v. (str_eq id gone ≡ false) × IsWatching sessions id v) m
    → Each (IsWatching (erase gone sessions)) (drop_watched gone m)
unfolding drop_watched
drop_watched-IsWatching sessions gone [] h = tt
drop_watched-IsWatching sessions gone ((id, watched) ∷ m) h =
    let rest = drop_watched-IsWatching sessions gone m h.1 in
    if_cases (Each (IsWatching (erase gone sessions))) (length (set_erase gone watched) == 0) _ _
      (λ e. rest)
      (λ e. (set_erase-IsWatching sessions gone id watched h.0.0 h.0.1 (ground arith), rest))

pub leave_room-watchers :
    (room : Room) (gone : PeerId)
    → Each (IsWatching room.sessions) room.video_watchers
    → Each (IsWatching (leave_room gone room).sessions) (leave_room gone room).video_watchers
unfolding leave_room
leave_room-watchers room gone w =
    drop_watched-IsWatching room.sessions gone (erase gone room.video_watchers)
      (Each-erased (IsWatching room.sessions) gone room.video_watchers w)
