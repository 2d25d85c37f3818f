-- ===== src/Tests/Server.antt =====
-- backend/signaling_server/src/ws_server.cpp at concrete rooms.
use driscord.Common.{
  if◌then◌else◌, Option, ◌==◌, ℕ, ◌+◌, ◌<◌, ◌≤◌, ◌≡◌, refl, ◌⊎◌, Bool, true, false, none, some,
  List, [], ◌∷◌, ◌++◌, length,
}
use driscord.Common.Assoc.{lookup, insert, keys, contains}
use driscord.Signaling.{PeerId, watch_rejected, not_streaming}
use driscord.Voice.{Track}
use driscord.Voice.Invariant.{IsValid}
use driscord.Screen.Valid.{AreWell}
use driscord.Server.{Room, WebSocketServer, new_room, new_server, emplace}
use driscord.Server.Rooms.{register_and_build_welcome, unregister_session, add_video_watcher}
use driscord.Server.Valid.{IsServerValid}
use driscord.Server.Reach.{IsReached, started, joined, IsReached-IsServerValid}
use driscord.Queue.{push_back, pop_front, front, close_queue, new_queue}
use driscord.Server.Writes.{
  Event, sends, runs, ends, step, run_events, new_writer, enqueue, do_write, run_posted, on_write,
  on_close,
}
use driscord.Server.Writes.Order.{run_events-IsInOrder}
use driscord.Server.Effects.{IsReached-bound, IsAnswered, add_video_watcher-IsAnswered}
use driscord.Server.Sent.{All}
use driscord.Server.Leave.{HasLeft, IsRemoved, IsTold, IsAnyBinding, unregister_session-HasLeft}

abbrev pub any : Track → Bool
any t = true

-- The channels 1 and 2 are those of "ann" and "bob".
abbrev pub anybody : ℕ → Option PeerId
anybody channel = if channel == 1 then some "ann" else if channel == 2 then some "bob" else none

abbrev pub one_here : WebSocketServer
one_here = (register_and_build_welcome new_server "ann" "den" "Ann").server

abbrev pub two_here : WebSocketServer
two_here = (register_and_build_welcome one_here "bob" "den" "Bob").server

two_here-IsReached : IsReached two_here
two_here-IsReached = joined one_here "bob" "den" "Bob" (joined new_server "ann" "den" "Ann" started)

abbrev den : Room
den = record new_room { sessions = ("ann", "Ann") ∷ ("bob", "Bob") ∷ [] }

den_there : lookup "den" two_here.rooms ≡ some den
unfolding register_and_build_welcome insert lookup emplace contains keys
den_there = refl

rejected :
    (add_video_watcher any anybody two_here "bob" "den" "ann").1
    ≡ record { to = "bob"; message = watch_rejected "ann" not_streaming } ∷ []
unfolding register_and_build_welcome add_video_watcher insert lookup emplace contains keys
rejected = refl

IsReached-IsServerValid_example : IsServerValid two_here
IsReached-IsServerValid_example = IsReached-IsServerValid two_here two_here-IsReached

IsReached-bound_example : IsValid den.voice_router × AreWell any den.screen_router.peers
IsReached-bound_example = IsReached-bound two_here any "den" den two_here-IsReached den_there

-- "ann" streams, so that "bob" may watch.
abbrev streaming_den : Room
streaming_den = record den { streaming_peers = "ann" ∷ [] }

abbrev streaming_here : WebSocketServer
streaming_here = record { rooms = ("den", streaming_den) ∷ []; stopping = false }

add_video_watcher-IsAnswered_example :
    IsAnswered any anybody streaming_here streaming_den "bob" "den" "ann"
      (add_video_watcher any anybody streaming_here "bob" "den" "ann")
unfolding lookup contains keys
add_video_watcher-IsAnswered_example =
    add_video_watcher-IsAnswered any anybody streaming_here "bob" "den" "ann" streaming_den refl
      refl

unregister_session-HasLeft_example :
    let (s', sent) = unregister_session any anybody two_here "ann" "den" in
    ((room' : Room) × (lookup "den" s'.rooms ≡ some room')
      × HasLeft den room' "ann"
      × (0 < length room'.sessions)
      × IsRemoved any den room' "ann"
      × IsTold den room' "ann" sent)
    ⊎ ((lookup "den" s'.rooms ≡ none) × All IsAnyBinding sent)
unfolding contains keys
unregister_session-HasLeft_example =
    unregister_session-HasLeft any anybody two_here "ann" "den" den den_there refl

-- Two messages, of which the first is written; the second write fails.
abbrev talk : List (Event ℕ)
talk = sends 1 ∷ sends 2 ∷ runs ∷ ends false ∷ ends true ∷ sends 3 ∷ []

talk_written : (run_events talk new_writer).written ≡ 1 ∷ []
unfolding run_events step enqueue run_posted on_write on_close do_write push_back pop_front front
    close_queue new_writer new_queue
talk_written = refl

run_events-IsInOrder_example :
    let w = run_events talk new_writer in
    (w.written ++ w.write_queue.items ≡ w.let_in)
    × (w.posted + length w.in_flight ≤ 1)
    × (w.write_queue.closed ≡ false
        → 1 ≤ length w.write_queue.items
        → w.posted + length w.in_flight ≡ 1)
run_events-IsInOrder_example = run_events-IsInOrder talk
