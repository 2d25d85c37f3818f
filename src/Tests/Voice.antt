-- ===== src/Tests/Voice.antt =====
-- backend/signaling_server/src/voice_router.cpp at concrete routers.
use driscord.Common.{ℕ, ◌≡◌, refl, Bool, true, false, Option, none, some, List, [], ◌∷◌, String}
use driscord.Common.Assoc.{lookup, insert, keys, map_values, contains}
use driscord.Common.Sort.{sort_ids, sorted_insert, str_ltb}
use driscord.Rtp.Slot.{new, begin_source}
use driscord.Signaling.{PeerId}
use driscord.Voice.{
  Track, PeerState, VoiceRouter, initial, new_peer, peer_for_locked, bound, ordered_peers_locked,
  comes_before, order_of, bind_first,
}
use driscord.Voice.Slots.{count, Extends}
use driscord.Voice.Assign.{is_audible, fill, assign_one, assign_all, assign_available_locked}
use driscord.Voice.Register.{
  send_only, recv_only, TrackInfo, register_track, remove_peer, put_output, replace_output,
  sweep_slots, sweep_notices, assign_after, register_input, register_output,
}
use driscord.Voice.Invariant.{IsValid}
use driscord.Voice.Reach.{IsReached, started, registered, IsReached-IsValid}
use driscord.Voice.Saturation.{IsServed, assign_available_locked-IsServed}
use driscord.Voice.Removal.{remove_peer-unbound}

abbrev any : Track → Bool
any t = true

abbrev microphone : ℕ → TrackInfo
microphone t = record {
  id = t;
  media_type = "audio";
  direction = recv_only;
  mid = "0";
  mid_extension_id = some 3;
}

abbrev speaker : ℕ → String → TrackInfo
speaker t mid = record {
  id = t;
  media_type = "audio";
  direction = send_only;
  mid = mid;
  mid_extension_id = none;
}

abbrev one_speaking : VoiceRouter
one_speaking = (register_track any initial "ann" (microphone 1) 0 (some 5)).0

abbrev two_peers : VoiceRouter
two_peers = (register_track any one_speaking "bob" (speaker 2 "1") 77 (some 6)).0

abbrev outputs_of : PeerId → VoiceRouter → Option (List PeerId)
outputs_of id r = elim (lookup id r.peers) [ none ↦ none | some peer ↦ some (bound peer.outputs) ]

hears_the_other : outputs_of "bob" two_peers ≡ some ("ann" ∷ [])
unfolding register_track register_input register_output peer_for_locked insert lookup keys
    map_values put_output replace_output sweep_slots sweep_notices assign_after
    assign_available_locked ordered_peers_locked sort_ids sorted_insert comes_before order_of
    str_ltb assign_all assign_one fill bind_first is_audible bound contains new begin_source
hears_the_other = refl

two_peers-IsReached : IsReached two_peers
two_peers-IsReached =
    registered one_speaking any "bob" (speaker 2 "1") 77 (some 6)
      (registered initial any "ann" (microphone 1) 0 (some 5) started)

IsReached-IsValid_example : IsValid two_peers
IsReached-IsValid_example = IsReached-IsValid two_peers two_peers-IsReached

-- A publisher with a microphone, and a subscriber with one slot that is free.
abbrev listener : PeerState
listener = record (new_peer 1) {
  outputs =
      record {
        mid = "1";
        ssrc = 77;
        track = some 2;
        publisher = none;
        rewriter = new 48000 960;
        source_generation = 0;
      }
      ∷ [];
}

abbrev waiting : VoiceRouter
waiting = record {
  peers = ("ann", record (new_peer 0) { input = some 1 }) ∷ ("bob", listener) ∷ [];
  next_peer_order = 2;
  closed = false;
}

assign_available_locked-IsServed_example :
    (after : PeerState) × (lookup "bob" (assign_available_locked any waiting).0.peers ≡ some after)
    × Extends listener.outputs after.outputs
    × IsServed any "ann" after.outputs
unfolding lookup is_audible
assign_available_locked-IsServed_example =
    assign_available_locked-IsServed any waiting "bob" "ann" listener refl refl

two_peers_open : two_peers.closed ≡ false
unfolding register_track register_input register_output peer_for_locked assign_after
    assign_available_locked lookup assign_all ordered_peers_locked sort_ids keys map_values insert
    sorted_insert assign_one
two_peers_open = refl

remove_peer-unbound_example :
    let after = (remove_peer any two_peers "ann").0 in
    (lookup "ann" after.peers ≡ none)
    × ((id : String) (peer : PeerState)
        → lookup id after.peers ≡ some peer
        → count "ann" peer.outputs ≡ 0)
remove_peer-unbound_example =
    remove_peer-unbound any two_peers "ann" (IsReached-IsValid two_peers two_peers-IsReached)
      two_peers_open
