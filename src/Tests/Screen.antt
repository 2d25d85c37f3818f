-- ===== src/Tests/Screen.antt =====
-- backend/signaling_server/src/screen_router.cpp at concrete routers.
use driscord.Common.{
  ℕ, ◌+◌, ◌<◌, ◌≡◌, ◌≢◌, refl, sym, Bool, true, false, Option, none, some, List, [], ◌∷◌, String,
  eq_iff, length, arith,
}
use driscord.Common.Assoc.{lookup, insert, keys, map_values, contains}
use driscord.Common.Sort.{sort_ids, sorted_insert, str_ltb}
use driscord.Rtp.Slot.{new, begin_source, end_source}
use driscord.Signaling.{PeerId}
use driscord.Voice.{Track}
use driscord.Voice.Register.{send_only, recv_only, TrackInfo}
use driscord.Binding.{bound, bind_first, fill, assign_one, assign_all}
use driscord.Binding.Slots.{count}
use driscord.Binding.Sweep.{sweep, sweep_notices}
use driscord.Binding.Put.{change_first}
use driscord.Binding.Rounds.{Later, IsServed}
use driscord.Screen.{
  OutputTrack, PeerState, ScreenRouter, initial, new_peer, peer_for_locked, order_of, comes_before,
  ordered_peers_locked, watched_before, ordered_watches_locked, is_available, kind,
  assign_available_locked,
}
use driscord.Screen.Pairs.{clear_pair_locked, output_pair_for, mark_ready}
use driscord.Screen.Methods.{
  assign_after, register_input, begin_output, finish_output, register_output, register_track,
  set_streaming, set_watching, remove_peer, close, stats, pair_targets,
}
use driscord.Screen.Regular.{Allowed, Same, Alike, kind-IsRegular}
use driscord.Screen.Valid.{AreWell}
use driscord.Screen.Reach.{IsReached, started, registered, streamed, watched, IsReached-AreWell}
use driscord.Screen.Effects.{
  assign_available_locked-serves, set_streaming-unbound, set_watching-unbound,
}
use driscord.Screen.Removal.{remove_peer-forgotten}
use driscord.Screen.Targets.{AreCurrent, pair_targets-Allowed}
use driscord.Screen.Closed.{pairs_of, close-Refused, stats-total}

abbrev any : Track → Bool
any t = true

abbrev camera : ℕ → TrackInfo
camera t = record {
  id = t;
  media_type = "video";
  direction = recv_only;
  mid = "0";
  mid_extension_id = some 3;
}

abbrev window : ℕ → String → String → TrackInfo
window t media_type mid = record {
  id = t;
  media_type = media_type;
  direction = send_only;
  mid = mid;
  mid_extension_id = none;
}

abbrev with_camera : ScreenRouter
with_camera = (register_track any initial "ann" (camera 1) 0 "0" (some 5)).0

abbrev with_video : ScreenRouter
with_video = (register_track any with_camera "bob" (window 2 "video" "0") 77 "9" (some 6)).0

abbrev with_audio : ScreenRouter
with_audio = (register_track any with_video "bob" (window 3 "audio" "1") 78 "10" (some 6)).0

abbrev with_watch : ScreenRouter
with_watch = (set_watching any with_audio "bob" "ann" true).0

abbrev sharing : ScreenRouter
sharing = (set_streaming any with_watch "ann" true).0

abbrev outputs_of : PeerId → ScreenRouter → Option (List PeerId)
outputs_of id r = elim (lookup id r.peers) [
  | none ↦ none
  | some peer ↦ some (bound (kind any) peer.outputs)
]

sees_the_other : outputs_of "bob" sharing ≡ some ("ann" ∷ [])
unfolding register_track register_input register_output begin_output finish_output peer_for_locked
    insert lookup keys map_values sweep_notices sweep assign_after assign_available_locked
    ordered_peers_locked sort_ids sorted_insert comes_before order_of str_ltb watched_before
    ordered_watches_locked is_available assign_all assign_one fill bind_first bound contains new
    begin_source change_first output_pair_for mark_ready clear_pair_locked set_streaming
    set_watching
sees_the_other = refl

sees_no_more : outputs_of "bob" (set_streaming any sharing "ann" false).0 ≡ some []
unfolding register_track register_input register_output begin_output finish_output peer_for_locked
    insert lookup keys map_values sweep_notices sweep assign_after assign_available_locked
    ordered_peers_locked sort_ids sorted_insert comes_before order_of str_ltb watched_before
    ordered_watches_locked is_available assign_all assign_one fill bind_first bound contains new
    begin_source change_first output_pair_for mark_ready clear_pair_locked set_streaming
    set_watching end_source
sees_no_more = refl

sharing-IsReached : IsReached sharing
sharing-IsReached = streamed with_watch any "ann" true (
    watched with_audio any "bob" "ann" true (
      registered with_video any "bob" (window 3 "audio" "1") 78 "10" (some 6) (
        registered with_camera any "bob" (window 2 "video" "0") 77 "9" (some 6)
          (registered initial any "ann" (camera 1) 0 "0" (some 5) started))))

sharing_open : sharing.closed ≡ false
unfolding register_track register_input register_output begin_output finish_output peer_for_locked
    insert lookup keys map_values sweep_notices sweep assign_after assign_available_locked
    ordered_peers_locked sort_ids sorted_insert comes_before order_of str_ltb watched_before
    ordered_watches_locked is_available assign_all assign_one fill bind_first bound contains new
    begin_source change_first output_pair_for mark_ready clear_pair_locked set_streaming
    set_watching
sharing_open = refl

abbrev bob : String
bob = "bob"

different : bob ≢ "ann"
different e = let same = (eq_iff bob "ann").1 e in ground arith

IsReached-AreWell_example : AreWell any sharing.peers
IsReached-AreWell_example = IsReached-AreWell sharing sharing-IsReached any

-- A publisher with a camera, and a subscriber that watches it and has one pair, which is free.
abbrev pane : Track → String → OutputTrack
pane t mid = record {
  mid = mid;
  ssrc = 77;
  track = some t;
  ready = true;
  rewriter = new 48000 960;
  source_generation = 0;
}

abbrev viewer : PeerState
viewer = record (new_peer 1) {
  outputs =
      record {
        cname = "slot";
        video = some (pane 2 "0");
        audio = some (pane 3 "1");
        publisher = none;
      }
      ∷ [];
  watched_publishers = ("ann", 0) ∷ [];
}

abbrev sender : PeerState
sender = record (new_peer 0) { input_video = some 1; streaming = true }

abbrev waiting : ScreenRouter
waiting = record initial { peers = ("ann", sender) ∷ ("bob", viewer) ∷ []; next_peer_order = 2 }

assign_available_locked-serves_example :
    (after : PeerState) × (lookup "bob" (assign_available_locked any waiting).0.peers ≡ some after)
    × Later (kind any) Same Alike (kind-IsRegular any) viewer after
    × IsServed (kind any) Same Alike (kind-IsRegular any) "ann" after.outputs
unfolding lookup is_available contains keys
assign_available_locked-serves_example =
    assign_available_locked-serves any waiting bob "ann" viewer sender refl refl
      (λ e. different (sym e)) refl refl refl

set_streaming-unbound_example :
    let after = (set_streaming any sharing "ann" false).0 in
    (p : PeerState) × (lookup "ann" after.peers ≡ some p)
    × (p.streaming ≡ false)
    × ((id : String) (peer : PeerState)
        → false ≡ false
        → lookup id after.peers ≡ some peer
        → count (kind any) "ann" peer.outputs ≡ 0)
set_streaming-unbound_example =
    set_streaming-unbound any sharing "ann" false (IsReached-AreWell sharing sharing-IsReached any)
      sharing_open

set_watching-unbound_example :
    (peer : PeerState) × (lookup "bob" (set_watching any sharing "bob" "ann" false).0.peers
      ≡ some peer)
    × (contains (keys peer.watched_publishers) "ann" ≡ false)
    × (false ≡ false → count (kind any) "ann" peer.outputs ≡ 0)
set_watching-unbound_example =
    set_watching-unbound any sharing "bob" "ann" false different sharing_open
      (IsReached-AreWell sharing sharing-IsReached any)

remove_peer-forgotten_example :
    let after = (remove_peer any sharing "ann").0 in
    (lookup "ann" after.peers ≡ none)
    × ((id : String) (peer : PeerState)
        → lookup id after.peers ≡ some peer
        → (count (kind any) "ann" peer.outputs ≡ 0)
          × (contains (keys peer.watched_publishers) "ann" ≡ false))
remove_peer-forgotten_example =
    remove_peer-forgotten any sharing "ann" (IsReached-AreWell sharing sharing-IsReached any)
      sharing_open

close-Refused_example :
    let r' = close sharing in
    ((track : TrackInfo) (ssrc : ℕ) (token : String) (send : Option ℕ)
      → register_track any r' "ann" track ssrc token send ≡ (r', []))
    × ((streaming : Bool) → set_streaming any r' "ann" streaming ≡ (r', []))
    × ((q : PeerId) (watching : Bool) → set_watching any r' "ann" q watching ≡ (r', []))
    × (remove_peer any r' "ann" ≡ (r', []))
    × (close r' ≡ r')
close-Refused_example = close-Refused any sharing "ann"

stats-total_example :
    let s = stats any sharing in
    (s.bound_slots ≡ length (bound (kind any) (pairs_of sharing.peers)))
    × (s.bound_slots + s.free_slots ≡ length (pairs_of sharing.peers))
stats-total_example = stats-total any sharing

-- The viewer that carries the publisher.
abbrev or_new : Option PeerState → PeerState
or_new none = new_peer 0
or_new (some peer) = peer

abbrev is_there : Option PeerState → Bool
is_there none = false
is_there (some peer) = true

or_new_there : (o : Option PeerState) → is_there o ≡ true → o ≡ some (or_new o)
or_new_there none h = absurd cc
or_new_there (some peer) h = refl

abbrev viewing : PeerState
viewing = or_new (lookup bob sharing.peers)

viewing_is_there : is_there (lookup bob sharing.peers) ≡ true
unfolding register_track register_input register_output begin_output finish_output peer_for_locked
    insert lookup keys map_values sweep_notices sweep assign_after assign_available_locked
    ordered_peers_locked sort_ids sorted_insert comes_before order_of str_ltb watched_before
    ordered_watches_locked is_available assign_all assign_one fill bind_first bound contains new
    begin_source change_first output_pair_for mark_ready clear_pair_locked set_streaming
    set_watching
viewing_is_there = refl

viewing_there : lookup bob sharing.peers ≡ some viewing
viewing_there = or_new_there (lookup bob sharing.peers) viewing_is_there

pair_targets-Allowed_example :
    AreCurrent (pair_targets "ann" "video" viewing.outputs)
    × (0 < length (pair_targets "ann" "video" viewing.outputs)
        → Allowed sharing.peers bob viewing "ann")
pair_targets-Allowed_example =
    pair_targets-Allowed sharing "ann" bob "video" viewing sharing-IsReached viewing_there
