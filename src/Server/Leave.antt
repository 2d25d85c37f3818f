-- ===== src/Server/Leave.antt =====
-- What `unregister_session` of backend/signaling_server/src/ws_server.cpp achieves and sends.
use driscord.Common.{
  ◌++◌, Option, subst, sym, ℕ, if◌then◌else◌, ◌<◌, ◌==◌, ◌≡◌, refl, ◌⊎◌, Bool, true, false, List,
  [], ◌∷◌, none, some, str_eq, if_cases, length, arith, inl, inr, str_eq_refl,
}
use driscord.Common.Assoc.{Entries, lookup, erase, keys, contains, lookup-insert_self, lookup-erase}
use driscord.Common.Each.{Each, Each-erased}
use driscord.Signaling.{voice, screen, peer_left, streaming_stop, PeerId, Message}
use driscord.Voice.{Track}
use driscord.Server.{RoomId, Room, WebSocketServer, Delivery, set_erase}
use driscord.Server.Rooms.{
  drop_watched, leave_room, remove_from_routers, leave_messages, send_each, unregister_session,
}
use driscord.Server.Sent.{
  IsIn, All, IsIn-append, All-append, All-weaken, IsBinding, publish_voice-IsBinding,
  publish_screen-IsBinding, delivery, send_each-IsIn, send_each-All, IsFarewell,
  leave_messages-farewell,
}
use driscord.Voice.Register
use driscord.Screen.Methods
use driscord.Server.Notices.{publish_voice, publish_screen}
use driscord.Server.Valid.{contains-set_erase}
use driscord.Server.Members.{length-keys}

-- A peer that left a room, whom nobody in it watches, and who took nobody else with it.
pub record HasLeft (room room' : Room) (id : PeerId) : Type 0 where
  pub sessions :
      (q : PeerId)
      → lookup q room'.sessions ≡ (if str_eq id q then none else lookup q room.sessions)
  pub streaming :
      (q : PeerId)
      → contains room'.streaming_peers q
        ≡ (if str_eq id q then false else contains room.streaming_peers q)
  pub watchers :
      Each (λ w watched. (str_eq w id ≡ false) × (contains watched id ≡ false)) room'.video_watchers

-- A TrackBinding of either connection.
abbrev pub IsAnyBinding : Delivery → Type 0
IsAnyBinding d = IsBinding voice d ⊎ IsBinding screen d

-- What is sent when a peer leaves a room with sessions left: PeerLeft to each of them, StreamingStop
-- too if the peer streamed, and but for bindings nothing else.
pub record IsTold (room room' : Room) (id : PeerId) (sent : List Delivery) : Type 0 where
  pub left :
      (q : PeerId) → contains (keys room'.sessions) q ≡ true → IsIn (delivery q (peer_left id)) sent
  pub stopped :
      (q : PeerId)
      → contains (keys room'.sessions) q ≡ true
      → contains room.streaming_peers id ≡ true
      → IsIn (delivery q (streaming_stop (some id))) sent
  pub only :
      All
        (λ d.
          IsAnyBinding d
          ⊎ ((contains (keys room'.sessions) d.to ≡ true) × IsFarewell room id d.message))
        sent

drop_watched-unwatched :
    (gone : PeerId) (m : Entries (List PeerId))
    → Each (λ id v. (str_eq id gone ≡ false) × Unit {0}) m
    → Each (λ id v. (str_eq id gone ≡ false) × (contains v gone ≡ false)) (drop_watched gone m)
unfolding drop_watched
drop_watched-unwatched gone [] h = tt
drop_watched-unwatched gone ((id, watched) ∷ m) h =
    let rest = drop_watched-unwatched gone m h.1 in
    if_cases (Each (λ id v. (str_eq id gone ≡ false) × (contains v gone ≡ false)))
      (length (set_erase gone watched) == 0) _ _ (λ e. rest)
      (λ e. ((h.0.0, ground (arith, contains-set_erase gone gone watched, str_eq_refl gone)), rest))

anything : {V : Type 0} (m : Entries V) → Each (λ id v. Unit {0}) m
anything [] = tt
anything (e ∷ m) = (tt, anything m)

leave_room-HasLeft : (room : Room) (id : PeerId) → HasLeft room (leave_room id room) id
unfolding leave_room
leave_room-HasLeft room id = record {
  sessions = λ q. lookup-erase id q room.sessions;
  streaming = λ q. contains-set_erase q id room.streaming_peers;
  watchers =
      drop_watched-unwatched id (erase id room.video_watchers)
        (Each-erased (λ k v. Unit {0}) id room.video_watchers (anything room.video_watchers));
}

send_each-none :
    (ids : List PeerId) (messages : List Message) → length ids ≡ 0 → send_each ids messages ≡ []
unfolding send_each
send_each-none [] messages e = refl
send_each-none (to ∷ ids) messages e = absurd (omega (arith, e))

-- What is sent where the bindings come first.
IsTold-append :
    (room room' : Room) (id : PeerId) (bindings : List Delivery)
    → All IsAnyBinding bindings
    → IsTold room room' id (bindings ++ send_each (keys room'.sessions) (leave_messages room id))
IsTold-append room room' id bindings h =
    let messages = leave_messages room id in
    let ids = keys room'.sessions in
    let (left, stopped, farewell) = leave_messages-farewell room id in
    let Told : Delivery → Type 0 =
      λ d. (contains (keys room'.sessions) d.to ≡ true) × IsFarewell room id d.message in
    let Only : Delivery → Type 0 = λ d. IsAnyBinding d ⊎ Told d in
    record {
      left = λ q member.
          IsIn-append (delivery q (peer_left id)) bindings (send_each ids messages)
            (send_each-IsIn ids messages q (peer_left id) member left);
      stopped = λ q member streamed.
          IsIn-append (delivery q (streaming_stop (some id))) bindings (send_each ids messages)
            (send_each-IsIn ids messages q (streaming_stop (some id)) member (stopped streamed));
      only =
          All-append Only bindings (send_each ids messages)
            (All-weaken IsAnyBinding Only bindings (λ d k. inl k) h)
            (All-weaken Told Only (send_each ids messages) (λ d k. inr k)
              (send_each-All (IsFarewell room id) ids messages farewell));
    }

module _ (alive : Track → Bool) where
  -- Both routers of the room have removed the peer.
  abbrev pub IsRemoved : Room → Room → PeerId → Type 0
  IsRemoved room room' id =
      (room'.voice_router ≡ (Register.remove_peer alive room.voice_router id).0)
      × (room'.screen_router ≡ (Methods.remove_peer alive room.screen_router id).0)

module _ (alive : Track → Bool) (session_of : ℕ → Option PeerId) where
  routers-HasLeft :
      (room room' : Room) (id : PeerId)
      → HasLeft room room' id
      → HasLeft room (remove_from_routers alive session_of id room').0 id
  unfolding remove_from_routers
  routers-HasLeft room room' id h = record {
    sessions = h.sessions;
    streaming = h.streaming;
    watchers = h.watchers;
  }

  routers-sessions :
      (room : Room) (id : PeerId)
      → (remove_from_routers alive session_of id room).0.sessions ≡ room.sessions
  unfolding remove_from_routers
  routers-sessions room id = refl

  routers-IsAnyBinding :
      (room : Room) (id : PeerId)
      → All IsAnyBinding (remove_from_routers alive session_of id room).1
  unfolding remove_from_routers
  routers-IsAnyBinding room id =
      All-append IsAnyBinding (publish_voice session_of _) (publish_screen session_of _)
        (All-weaken (IsBinding voice) IsAnyBinding _ (λ d h. inl h)
          (publish_voice-IsBinding session_of _))
        (All-weaken (IsBinding screen) IsAnyBinding _ (λ d h. inr h)
          (publish_screen-IsBinding session_of _))

  routers-IsTold :
      (room room' : Room) (id : PeerId)
      → IsTold room (remove_from_routers alive session_of id room').0 id (
          (remove_from_routers alive session_of id room').1
          ++ send_each (keys room'.sessions) (leave_messages room id))
  routers-IsTold room room' id =
      subst
        (λ m. IsTold room (remove_from_routers alive session_of id room').0 id (
          (remove_from_routers alive session_of id room').1
          ++ send_each (keys m) (leave_messages room id)))
        (routers-sessions room' id)
        (IsTold-append room (remove_from_routers alive session_of id room').0 id _
          (routers-IsAnyBinding room' id))

  routers-IsRemoved :
      (room : Room) (id : PeerId)
      → IsRemoved alive room (remove_from_routers alive session_of id (leave_room id room)).0 id
  unfolding remove_from_routers leave_room
  routers-IsRemoved room id = (refl, refl)

  -- After unregister_session of a session of a room, either the room is there with a session
  -- left: its sessions and its streaming peers are those of before without the peer, who
  -- watches nobody and whom nobody watches; both its routers have taken remove_peer of the
  -- peer; each session that is left is sent PeerLeft, and StreamingStop if the peer streamed;
  -- and all else that is sent are TrackBindings. Or the room is gone, and all that is sent are
  -- TrackBindings.
  pub unregister_session-HasLeft :
      (s : WebSocketServer) (id : PeerId) (room_id : RoomId) (room : Room)
      → lookup room_id s.rooms ≡ some room
      → contains (keys room.sessions) id ≡ true
      → let (s', sent) = unregister_session alive session_of s id room_id in
        ((room' : Room) × (lookup room_id s'.rooms ≡ some room')
          × HasLeft room room' id
          × (0 < length room'.sessions)
          × IsRemoved alive room room' id
          × IsTold room room' id sent)
        ⊎ ((lookup room_id s'.rooms ≡ none) × All IsAnyBinding sent)
  unfolding unregister_session
  unregister_session-HasLeft s id room_id room e member =
      let left = leave_room id room in
      let removed = remove_from_routers alive session_of id left in
      let Left : WebSocketServer × List Delivery → Type 0 = λ step.
        ((room' : Room) × (lookup room_id step.0.rooms ≡ some room')
          × HasLeft room room' id
          × (0 < length room'.sessions)
          × IsRemoved alive room room' id
          × IsTold room room' id step.1)
        ⊎ ((lookup room_id step.0.rooms ≡ none) × All IsAnyBinding step.1) in
      let sent = removed.1 ++ send_each (keys left.sessions) (leave_messages room id) in
      rw (e, unregister_session)
        (if_cases Left (contains (keys room.sessions) id) _ _
          (λ _.
            if_cases (λ rooms. Left (record s { rooms = rooms }, sent))
              (length (keys left.sessions) == 0) _ _
              (λ empty. inr (
                ground (arith, lookup-erase room_id room_id s.rooms, str_eq_refl room_id),
                All-append IsAnyBinding removed.1 _ (routers-IsAnyBinding left id) (
                    subst (All IsAnyBinding)
                      (sym (
                        send_each-none (keys left.sessions) (leave_messages room id)
                          (ground (arith, empty))))
                      tt),
              ))
              (λ more. inl (
                removed.0,
                lookup-insert_self room_id _ s.rooms,
                routers-HasLeft room left id (leave_room-HasLeft room id),
                subst (λ m. 0 < length m) (sym (routers-sessions left id))
                    (ground (arith, length-keys left.sessions, more)),
                routers-IsRemoved room id,
                routers-IsTold room left id,
              )))
          (λ no. absurd cc))
