-- ===== src/Tests/Watch.antt =====
-- A watch of backend/signaling_server/src/ws_server.cpp that is told over the channels of the tracks.
use driscord.Common.{none, some, String, ℕ, ◌≡◌, refl, [], ◌∷◌}
use driscord.Common.Assoc.{lookup, insert, erase, keys, contains, map_values}
use driscord.Common.Sort.{str_ltb, sort_ids, sorted_insert}
use driscord.Rtp.Slot.{new, begin_source, end_source}
use driscord.Signaling.{
  screen, track_binding, streaming_start, watch_start, peer_left, streaming_stop,
}
use driscord.Voice
use driscord.Voice.Assign
use driscord.Voice.Register
use driscord.Voice.Register.{TrackInfo, Direction, send_only, recv_only}
use driscord.Binding.{assign_all, assign_one, fill, bind_first, bound}
use driscord.Binding.Sweep.{sweep, sweep_notices}
use driscord.Binding.Put.{change_first}
use driscord.Screen.{
  peer_for_locked, assign_available_locked, ordered_peers_locked, comes_before, order_of,
  watched_before, ordered_watches_locked, is_available, append_pair_notices,
}
use driscord.Screen.Pairs.{output_pair_for, mark_ready, clear_pair_locked}
use driscord.Screen.Methods.{
  register_track, register_input, register_output, begin_output, finish_output, assign_after,
  set_streaming, set_watching, remove_peer,
}
use driscord.Server.{WebSocketServer, emplace, set_insert, set_erase}
use driscord.Server.Notices.{send_binding, publish_screen, publish_voice}
use driscord.Server.Rooms.{
  update_room, register_and_build_welcome, register_screen_track, add_streaming_peer,
  add_video_watcher, broadcast, on_message, unregister_session, remove_from_routers, leave_room,
  drop_watched, send_each,
}
use driscord.Tests.Server.{any, anybody, two_here}

-- "ann" shares a screen with video, and "bob" has a pair of tracks, told over the channel 2.
abbrev described : ℕ → String → String → Direction → TrackInfo
described track mid media_type direction = record {
  id = track;
  mid = mid;
  media_type = media_type;
  direction = direction;
  mid_extension_id = some 3;
}

abbrev with_tracks : WebSocketServer
with_tracks =
    let s1 =
      register_screen_track any anybody two_here "ann" "den" (described 1 "v" "video" recv_only) 11
        "11" (some 1) in
    let s2 =
      register_screen_track any anybody s1.0 "bob" "den" (described 2 "w" "video" send_only) 12 "12"
        (some 2) in
    let s3 =
      register_screen_track any anybody s2.0 "bob" "den" (described 3 "a" "audio" send_only) 13 "13"
        (some 2) in
    (on_message any anybody s3.0 "ann" "den" (streaming_start none)).0

-- Both tracks of the pair are told of the publisher.
watch_is_told :
    (on_message any anybody with_tracks "bob" "den" (watch_start "ann")).1
    ≡ record { to = "bob"; message = track_binding "w" (some "ann") screen }
      ∷ record { to = "bob"; message = track_binding "a" (some "ann") screen }
      ∷ []
unfolding register_track register_input register_output begin_output finish_output peer_for_locked
    insert lookup keys map_values sweep_notices sweep assign_after assign_available_locked
    ordered_peers_locked sort_ids sorted_insert comes_before order_of str_ltb watched_before
    ordered_watches_locked is_available assign_all assign_one fill bind_first bound contains new
    begin_source change_first output_pair_for mark_ready clear_pair_locked set_streaming
    set_watching append_pair_notices send_binding publish_screen update_room
    register_and_build_welcome register_screen_track add_streaming_peer add_video_watcher broadcast
    on_message emplace set_insert set_erase
watch_is_told = refl

-- The publisher leaves: the pair is released, and the watcher is told of that first.
leave_is_told :
    (unregister_session any anybody
      (on_message any anybody with_tracks "bob" "den" (watch_start "ann")).0
      "ann"
      "den").1
    ≡ record { to = "bob"; message = track_binding "w" none screen }
      ∷ record { to = "bob"; message = track_binding "a" none screen }
      ∷ record { to = "bob"; message = streaming_stop (some "ann") }
      ∷ record { to = "bob"; message = peer_left "ann" }
      ∷ []
unfolding register_track register_input register_output begin_output finish_output peer_for_locked
    insert lookup keys map_values sweep_notices sweep assign_after assign_available_locked
    ordered_peers_locked sort_ids sorted_insert comes_before order_of str_ltb watched_before
    ordered_watches_locked is_available assign_all assign_one fill bind_first bound contains new
    begin_source change_first output_pair_for mark_ready clear_pair_locked set_streaming
    set_watching append_pair_notices send_binding publish_screen update_room
    register_and_build_welcome register_screen_track add_streaming_peer add_video_watcher broadcast
    on_message emplace set_insert set_erase unregister_session remove_from_routers leave_room
    drop_watched send_each publish_voice remove_peer erase end_source Register.remove_peer
    Register.assign_after Register.sweep_notices Assign.assign_available_locked Assign.assign_all
    Voice.ordered_peers_locked
leave_is_told = refl
