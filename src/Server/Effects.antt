-- ===== src/Server/Effects.antt =====
-- What the server's methods (backend/signaling_server/src/ws_server.cpp) achieve.
use driscord.Common.{
  Option, ℕ, ◌≢◌, ◌<◌, ◌≤◌, leb, ◌≡◌, refl, ◌⊎◌, Bool, true, false, not, ◌||◌, List, [], ◌∷◌, none,
  some, str_eq, eq_iff, if_cases, length, arith, Bool-cases, inl, inr, str_eq_refl,
}
use driscord.Common.Assoc.{
  Entries, lookup, insert, keys, contains, lookup-insert, lookup-insert_self,
}
use driscord.Common.Each.{Each-lookup}
use driscord.Signaling.{
  screen, PeerId, WatchRejectReason, unknown_peer, not_streaming, capacity, watch_rejected,
}
use driscord.Voice.{Track}
use driscord.Voice.Invariant.{IsValid}
use driscord.Voice.Reach.{IsReached-IsValid}
use driscord.Screen.Valid.{AreWell}
use driscord.Screen.Reach.{IsReached-AreWell}
use driscord.Server.{RoomId, Room, WebSocketServer, Delivery, screen_receive_slots, set_insert}
use driscord.Server.Rooms.{watched_by, add_video_watcher}
use driscord.Server.Sent.{All, IsBinding, publish_screen-IsBinding}
use driscord.Screen.Methods.{set_watching}
use driscord.Server.Notices.{publish_screen}
use driscord.Server.Valid.{IsRoomValid, contains-set_insert}
use driscord.Server.Reach.{IsReached, IsReached-IsServerValid}

-- In every reached state of the server, both routers of every room have valid bindings: nobody
-- is bound twice or to itself, and a screen share is carried only to a peer that watches it,
-- from a peer that streams.
pub IsReached-bound :
    (s : WebSocketServer) (alive : Track → Bool) (room_id : RoomId) (room : Room)
    → IsReached s
    → lookup room_id s.rooms ≡ some room
    → IsValid room.voice_router × AreWell alive room.screen_router.peers
IsReached-bound s alive room_id room reached e =
    let w =
      Each-lookup (λ id room. IsRoomValid room) room_id s.rooms room
        (IsReached-IsServerValid s reached) e in
    (
      IsReached-IsValid room.voice_router w.sound.voice,
      IsReached-AreWell room.screen_router w.sound.screen alive,
    )

-- When a watch may be rejected for a reason.
abbrev pub IsJustified : Room → PeerId → PeerId → WatchRejectReason → Type 0
IsJustified room id p unknown_peer = (contains (keys room.sessions) p ≡ false) ⊎ (id ≡ p)
IsJustified room id p not_streaming = contains room.streaming_peers p ≡ false
IsJustified room id p capacity =
    (contains (watched_by room id) p ≡ false) × (screen_receive_slots ≤ length (watched_by room id))

module _ (alive : Track → Bool) (session_of : ℕ → Option PeerId) where
  -- A watch that begins: there was room for it, the room of the same sessions has it, and the screen
  -- router is told; what its notices become is sent, all of it bindings of a screen track.
  pub record HasBegun (room : Room) (id : PeerId) (room_id : RoomId) (p : PeerId)
      (step : WebSocketServer × List Delivery) : Type 0 where
    pub fresh : contains (watched_by room id) p ≡ false
    pub few : length (watched_by room id) < screen_receive_slots
    pub after : Room
    pub there : lookup room_id step.0.rooms ≡ some after
    pub sessions : after.sessions ≡ room.sessions
    pub watches : contains (watched_by after id) p ≡ true
    pub routed : after.screen_router ≡ (set_watching alive room.screen_router id p true).0
    pub published :
        step.1 ≡ publish_screen session_of (set_watching alive room.screen_router id p true).1
    pub bindings : All (IsBinding screen) step.1

  -- A watch that is accepted: the publisher is another session of the room, which streams; and it
  -- is watched already and nothing happens, or the watch begins.
  pub record IsAccepted (s : WebSocketServer) (room : Room) (id : PeerId) (room_id : RoomId)
      (p : PeerId) (step : WebSocketServer × List Delivery) : Type 0 where
    pub known : contains (keys room.sessions) p ≡ true
    pub other : id ≢ p
    pub streams : contains room.streaming_peers p ≡ true
    pub outcome :
        ((contains (watched_by room id) p ≡ true) × (step ≡ (s, [])))
        ⊎ HasBegun room id room_id p step

  -- What is answered to a session that wants to watch: a rejection that is justified and that changes
  -- nothing, or the watch is accepted.
  abbrev pub IsAnswered :
      WebSocketServer → Room → PeerId → RoomId → PeerId → WebSocketServer × List Delivery → Type 0
  IsAnswered s room id room_id p step =
      ((reason : WatchRejectReason) × (step
          ≡ (s, record { to = id; message = watch_rejected p reason } ∷ []))
        × IsJustified room id p reason)
      ⊎ IsAccepted s room id room_id p step

insert_watches :
    (id p : PeerId) (watched : List PeerId) (m : Entries (List PeerId))
    → contains
        (elim (lookup id (insert id (set_insert p watched) m)) as (λ _. List PeerId) [
          | none ↦ []
          | some w ↦ w
        ])
        p
      ≡ true
insert_watches id p watched m =
    let here : lookup id (insert id (set_insert p watched) m) ≡ some (set_insert p watched) =
      ground (arith, lookup-insert id id (set_insert p watched) m, str_eq_refl id) in
    rw here (ground (arith, contains-set_insert p p watched, str_eq_refl p))

module _ (alive : Track → Bool) (session_of : ℕ → Option PeerId) where
  -- A session of a room that asks to watch a peer either gets a rejection and nothing else is
  -- sent, the server stays as it was and the reason is justified (the peer is not in the room
  -- or is the session itself, it does not stream, or it is not watched yet and
  -- kScreenReceiveSlots others are); or the peer is another session of the room, which streams,
  -- and is watched already and nothing changes or is sent, or there was room for it, the
  -- session watches it from now on, the room's sessions are the same, the screen router takes
  -- the watch by set_watching, and what is sent are the notices of that call, all of them
  -- TrackBindings of the screen connection.
  pub add_video_watcher-IsAnswered :
      (s : WebSocketServer) (id : PeerId) (room_id : RoomId) (p : PeerId) (room : Room)
      → lookup room_id s.rooms ≡ some room
      → contains (keys room.sessions) id ≡ true
      → IsAnswered alive session_of s room id room_id p
          (add_video_watcher alive session_of s id room_id p)
  unfolding add_video_watcher
  add_video_watcher-IsAnswered s id room_id p room e member =
      let watched = watched_by room id in
      let Answered = IsAnswered alive session_of s room id room_id p in
      let distinct : str_eq id p ≡ false → id ≢ p =
        λ differ same. ground (arith, eq_iff id p, same) in
      rw (e, add_video_watcher)
        (if_cases Answered (not (contains (keys room.sessions) id)) _ _
          (λ no. absurd (ground arith))
          (λ _.
            if_cases Answered (not (contains (keys room.sessions) p) || str_eq id p) _ _
              (λ bad. inl (
                unknown_peer,
                refl,
                elim (Bool-cases (str_eq id p)) [
                  | inl same ↦ inr ((eq_iff id p).0 same)
                  | inr other ↦ inl (ground arith)
                ],
              ))
              (λ good.
                if_cases Answered (not (contains room.streaming_peers p)) _ _
                  (λ silent. inl (not_streaming, refl, ground arith))
                  (λ streams.
                    if_cases Answered (contains watched p) _ _
                      (λ already. inr record {
                        known = ground (arith, good);
                        other = distinct (ground (arith, good));
                        streams = ground (arith, streams);
                        outcome = inl (already, refl);
                      })
                      (λ fresh.
                        if_cases Answered (leb screen_receive_slots (length watched)) _ _
                          (λ full. inl (capacity, refl, (fresh, ground arith)))
                          (λ few. inr record {
                            known = ground (arith, good);
                            other = distinct (ground (arith, good));
                            streams = ground (arith, streams);
                            outcome = inr record {
                              fresh = fresh;
                              few = ground (arith, few);
                              after = _;
                              there = lookup-insert_self room_id _ s.rooms;
                              sessions = refl;
                              watches = insert_watches id p watched room.video_watchers;
                              routed = refl;
                              published = refl;
                              bindings = publish_screen-IsBinding session_of _;
                            };
                          }))))))
