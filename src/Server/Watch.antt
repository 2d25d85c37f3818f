-- ===== src/Server/Watch.antt =====
-- The server's handlers of watches (backend/signaling_server/src/ws_server.cpp) on valid rooms.
use driscord.Common.{
  ℕ, Option, ◌==◌, leb, ◌≡◌, refl, subst, Bool, true, false, not, ◌||◌, List, str_eq, eq_iff,
  if_cases, length, arith, Bool-cases, Option-cases, inl, inr,
}
use driscord.Common.Assoc.{Entries, lookup, keys, contains}
use driscord.Common.Each.{Each, Each-lookup, Each-insert, Each-erase}
use driscord.Signaling.{PeerId, Username}
use driscord.Voice.{Track}
use driscord.Screen.Reach as ScreenReach
use driscord.Server.{
  RoomId, Room, WebSocketServer, Delivery, screen_receive_slots, set_insert, set_erase,
}
use driscord.Server.Rooms.{watched_by, add_video_watcher, unwatch, remove_video_watcher}
use driscord.Server.Valid.{
  IsWatching, IsRoomSound, IsServerValid, contains-set_insert, length-set_insert,
  contains-set_erase, length-set_erase,
}
use driscord.Server.Members.{
  put-IsServerValid, room-IsRoomValid, update_room-IsServerValid, screen-IsRoomValid,
}

watched_others :
    (room : Room) (id q : PeerId)
    → IsRoomSound room
    → contains (watched_by room id) q ≡ true
    → (contains (keys room.sessions) q ≡ true) × (str_eq q id ≡ false)
unfolding contains
watched_others room id q w h = elim (Option-cases (lookup id room.video_watchers)) [
  | inl e ↦ absurd (ground arith)
  | inr (watched, e) ↦
      (Each-lookup (IsWatching room.sessions) id room.video_watchers watched w.watchers e).others q
        (ground arith)
]

watched-IsWatching :
    (room : Room) (id p : PeerId)
    → IsRoomSound room
    → contains (keys room.sessions) id ≡ true
    → contains (keys room.sessions) p ≡ true
    → str_eq id p ≡ false
    → contains (watched_by room id) p ≡ false
    → leb screen_receive_slots (length (watched_by room id)) ≡ false
    → IsWatching room.sessions id (set_insert p (watched_by room id))
watched-IsWatching room id p w member publisher other fresh few =
    let watched = watched_by room id in
    record {
      member = member;
      some_one = ground (arith, length-set_insert p watched fresh);
      few = ground (arith, length-set_insert p watched fresh, few);
      others = λ q h. elim (Bool-cases (str_eq p q)) [
        | inl same ↦ (
          subst (λ x. contains (keys room.sessions) x ≡ true) ((eq_iff p q).0 same) publisher,
          ground (arith, eq_iff p q, eq_iff id p, eq_iff q id, same, other),
        )
        | inr differs ↦
            watched_others room id q w (ground (arith, contains-set_insert q p watched, h, differs))
      ];
    }

unwatch-IsWatching :
    (sessions : Entries Username) (id p : PeerId) (m : Entries (List PeerId))
    → Each (IsWatching sessions) m
    → Each (IsWatching sessions) (unwatch id p m)
unwatch-IsWatching sessions id p m w = elim (Option-cases (lookup id m)) [
  | inl e ↦ rw (e, unwatch) w
  | inr (watched, e) ↦
      let here = Each-lookup (IsWatching sessions) id m watched w e in
      rw (e, unwatch)
        (if_cases (Each (IsWatching sessions)) (length (set_erase p watched) == 0) _ _
          (λ _. Each-erase (IsWatching sessions) id m w)
          (λ some_left.
            Each-insert (IsWatching sessions) id _ m
              record {
                member = here.member;
                some_one = ground (arith, some_left);
                few = omega (arith, length-set_erase p watched, here.few);
                others = λ q h. here.others q (ground (arith, contains-set_erase q p watched, h));
              }
              w))
]

module _ (alive : Track → Bool) (session_of : ℕ → Option PeerId) where
  pub add_watcher-IsServerValid :
      (s : WebSocketServer) (id : PeerId) (room_id : RoomId) (p : PeerId)
      → IsServerValid s
      → IsServerValid (add_video_watcher alive session_of s id room_id p).0
  unfolding add_video_watcher
  add_watcher-IsServerValid s id room_id p valid = elim (Option-cases (lookup room_id s.rooms)) [
    | inl e ↦ rw (e, add_video_watcher) valid
    | inr (room, e) ↦
        let w = room-IsRoomValid s room_id room valid e in
        let watched = watched_by room id in
        let Kept : WebSocketServer × List Delivery → Type 0 = λ step. IsServerValid step.0 in
        rw (e, add_video_watcher)
          (if_cases Kept (not (contains (keys room.sessions) id)) _ _ (λ _. valid)
            (λ member.
              if_cases Kept (not (contains (keys room.sessions) p) || str_eq id p) _ _ (λ _. valid)
                (λ known.
                  if_cases Kept (not (contains room.streaming_peers p)) _ _ (λ _. valid)
                    (λ _.
                      if_cases Kept (contains watched p) _ _ (λ _. valid)
                        (λ fresh.
                          if_cases Kept (leb screen_receive_slots (length watched)) _ _ (λ _. valid)
                            (λ few.
                              put-IsServerValid s room_id _
                                (screen-IsRoomValid room _ refl refl
                                  (ScreenReach.watched room.screen_router alive id p true
                                    w.sound.screen)
                                  (Each-insert (IsWatching room.sessions) id _ room.video_watchers
                                    (watched-IsWatching room id p w.sound (ground (arith, member))
                                      (ground (arith, known)) (ground (arith, known)) fresh few)
                                    w.sound.watchers)
                                  w)
                                valid))))))
  ]

  pub remove_watcher-IsServerValid :
      (s : WebSocketServer) (id : PeerId) (room_id : RoomId) (p : PeerId)
      → IsServerValid s
      → IsServerValid (remove_video_watcher alive session_of s id room_id p).0
  unfolding remove_video_watcher
  remove_watcher-IsServerValid s id room_id p = update_room-IsServerValid s room_id _ (λ room w.
      screen-IsRoomValid room _ refl refl
        (ScreenReach.watched room.screen_router alive id p false w.sound.screen)
        (unwatch-IsWatching room.sessions id p room.video_watchers w.sound.watchers) w)
