-- ===== src/Screen/Methods.antt =====
-- The screen router's methods (backend/signaling_server/src/screen_router.cpp): tracks that come,
-- streams that start and stop, peers that watch and leave, and what is read from the bindings.
use driscord.Common.{
  ℕ, ◌+◌, ◌%◌, ◌^◌, Bool, true, false, not, ◌&&◌, ◌||◌, List, [], ◌∷◌, ◌++◌, Option, none, some,
  String, str_eq, if◌then◌else◌,
}
use driscord.Common.Assoc.{lookup, insert, erase, keys, contains, map_values}
use driscord.Rtp.Slot.{RtpSlotRewriter}
use driscord.Media.{fresh_fault_state, fresh_link_state}
use driscord.Signaling.{PeerId}
use driscord.Voice.{Track, is_live}
use driscord.Voice.Register.{send_only, recv_only, TrackInfo, source_changed}
use driscord.Binding.Sweep.{sweep, sweep_peer, sweep_notices}
use driscord.Screen.{
  OutputTrack, OutputPair, PeerState, BindingNotice, Peers, ScreenRouter, peer_for_locked,
  append_pair_notices, kind, assign_available_locked,
}
use driscord.Screen.Pairs.{
  is_video, output_of, with_output, restart_pair, release, clear_pair_locked, new_output,
  output_pair_for, mark_ready,
}

-- `clear_pair_locked` for every pair that carries the publisher.
abbrev pub told_cleared : Peers → PeerState → OutputPair → List BindingNotice
told_cleared peers subscriber pair = (clear_pair_locked peers subscriber.send_binding pair).1

-- The pair's notices once its source has begun again.
abbrev told_restarted : Peers → PeerId → String → PeerState → OutputPair → List BindingNotice
told_restarted peers owner media_type subscriber pair =
    append_pair_notices peers subscriber.send_binding (restart_pair media_type pair) (some owner)

-- An input of the type is the peer's from now on.
abbrev pub put_input : (Track → Bool) → PeerState → TrackInfo → Option ℕ → PeerState
put_input alive peer track send_binding =
    let video_changed = source_changed alive peer.input_video track.id in
    let audio_changed = source_changed alive peer.input_audio track.id in
    if is_video track.media_type
    then record peer {
      send_binding = send_binding;
      video_fault_state = if video_changed then fresh_fault_state else peer.video_fault_state;
      video_link_state = if video_changed then fresh_link_state else peer.video_link_state;
      input_video = some track.id;
      video_mid_extension_id = track.mid_extension_id;
    }
    else record peer {
      send_binding = send_binding;
      audio_fault_state = if audio_changed then fresh_fault_state else peer.audio_fault_state;
      audio_link_state = if audio_changed then fresh_link_state else peer.audio_link_state;
      input_audio = some track.id;
      audio_mid_extension_id = track.mid_extension_id;
    }

abbrev pub input_of : String → PeerState → Option Track
input_of media_type peer = if is_video media_type then peer.input_video else peer.input_audio

-- A new output of the peer, in a pair that carries nobody.
abbrev pub put_output :
    Peers → Option ℕ → TrackInfo → ℕ → OutputPair → OutputPair × List BindingNotice
put_output peers send track ssrc pair =
    let (cleared, notices) = clear_pair_locked peers send pair in
    let output = new_output track.id track.mid ssrc track.media_type in
    (with_output track.media_type (some output) cleared, notices)

module _ (alive : Track → Bool) where
  -- The notices that were collected so far, and those of the pairs that are assigned then.
  unfoldable pub assign_after :
      ScreenRouter × List BindingNotice → ScreenRouter × List BindingNotice
  assign_after (r, notices) =
      let (r', assigned) = assign_available_locked alive r in (r', notices ++ assigned)

  unfoldable pub register_input :
      ScreenRouter → PeerId → TrackInfo → Option ℕ → ScreenRouter × List BindingNotice
  register_input r owner track send_binding =
      let (peer, r1) = peer_for_locked r owner in
      let changed = source_changed alive (input_of track.media_type peer) track.id in
      let peers = insert owner (put_input alive peer track send_binding) r1.peers in
      let restart = restart_pair track.media_type in
      let restarted : ScreenRouter × List BindingNotice = (
        record r1 { peers = map_values (sweep_peer (kind alive) owner restart) peers },
        sweep_notices (kind alive) owner restart (told_restarted peers owner track.media_type)
            peers,
      ) in
      let kept : ScreenRouter × List BindingNotice = (record r1 { peers = peers }, []) in
      if r.closed then (r, []) else assign_after (if changed then restarted else kept)

  -- The first part of `register_output`, with the mutex: `token` is the text of the number that names
  -- a new pair.
  unfoldable pub begin_output :
      ScreenRouter → PeerId → TrackInfo → ℕ → String → Option ℕ → ScreenRouter × List BindingNotice
  begin_output r owner track ssrc token send_binding =
      let (peer, r1) = peer_for_locked r owner in
      let put = put_output r1.peers send_binding track ssrc in
      let (outputs, notices) = output_pair_for put track.mid track.media_type token peer.outputs in
      let peer' = record peer { send_binding = send_binding; outputs = outputs } in
      let step : ScreenRouter × List BindingNotice =
        (record r1 { peers = insert owner peer' r1.peers }, notices) in
      if r.closed then (r, []) else step

  -- The second, with the mutex again, once the track is described to libdatachannel.
  unfoldable pub finish_output :
      ScreenRouter → PeerId → TrackInfo → ScreenRouter × List BindingNotice
  finish_output r owner track = elim (lookup owner r.peers) [
    | none ↦ (r, [])
    | some peer ↦
        let outputs = mark_ready alive track.id track.mid track.media_type peer.outputs in
        let peer' = record peer { outputs = outputs } in
        let step = assign_after (record r { peers = insert owner peer' r.peers }, []) in
        if r.closed then (r, []) else step
  ]

  -- Both, where no `close` comes between them: `publish_mutex` keeps every other method out.
  unfoldable pub register_output :
      ScreenRouter → PeerId → TrackInfo → ℕ → String → Option ℕ → ScreenRouter × List BindingNotice
  register_output r owner track ssrc token send_binding =
      let (r1, notices) = begin_output r owner track ssrc token send_binding in
      let (r2, assigned) = finish_output r1 owner track in
      if r.closed then (r, []) else (r2, notices ++ assigned)

  unfoldable pub register_track :
      ScreenRouter → PeerId → TrackInfo → ℕ → String → Option ℕ → ScreenRouter × List BindingNotice
  register_track r owner track ssrc token send_binding =
      let is_media = str_eq track.media_type "audio" || str_eq track.media_type "video" in
      if not is_media then (r, []) else elim track.direction [
        | recv_only ↦ register_input r owner track send_binding
        | send_only ↦ register_output r owner track ssrc token send_binding
        | _ ↦ (r, [])
      ]

  unfoldable pub set_streaming : ScreenRouter → PeerId → Bool → ScreenRouter × List BindingNotice
  set_streaming r peer_id streaming =
      let (peer, r1) = peer_for_locked r peer_id in
      let peers = insert peer_id (record peer { streaming = streaming }) r1.peers in
      let stopped : ScreenRouter × List BindingNotice = (
        record r1 { peers = map_values (sweep_peer (kind alive) peer_id release) peers },
        sweep_notices (kind alive) peer_id release (told_cleared peers) peers,
      ) in
      let started : ScreenRouter × List BindingNotice = (record r1 { peers = peers }, []) in
      let same = (peer.streaming && streaming) || (not peer.streaming && not streaming) in
      if r.closed
      then (r, [])
      else if same
      then (r1, [])
      else assign_after (if streaming then started else stopped)

  unfoldable pub set_watching :
      ScreenRouter → PeerId → PeerId → Bool → ScreenRouter × List BindingNotice
  set_watching r peer_id publisher_id watching =
      let (peer, r1) = peer_for_locked r peer_id in
      let watched = contains (keys peer.watched_publishers) publisher_id in
      let more = record peer {
        watched_publishers = insert publisher_id peer.next_watch_order peer.watched_publishers;
        next_watch_order = (peer.next_watch_order + 1) % 2 ^ 64;
      } in
      let (outputs, notices) =
        sweep (kind alive) publisher_id release (told_cleared r1.peers peer) peer.outputs in
      let less = record peer {
        watched_publishers = erase publisher_id peer.watched_publishers;
        outputs = outputs;
      } in
      let begun : ScreenRouter × List BindingNotice =
        (record r1 { peers = insert peer_id more r1.peers }, []) in
      let ended : ScreenRouter × List BindingNotice =
        (record r1 { peers = insert peer_id less r1.peers }, notices) in
      let start = if watched then (r1, []) else assign_after begun in
      let stop = if watched then assign_after ended else (r1, []) in
      if str_eq peer_id publisher_id
      then (r, [])
      else if r.closed
      then (r, [])
      else if watching
      then start
      else stop

  -- Without the watch, and without the pairs that carry the publisher.
  abbrev pub forget : PeerId → PeerId → PeerState → PeerState
  forget gone id peer =
      sweep_peer (kind alive) gone release id
        (record peer { watched_publishers = erase gone peer.watched_publishers })

  unfoldable pub remove_peer : ScreenRouter → PeerId → ScreenRouter × List BindingNotice
  remove_peer r peer_id =
      let peers = erase peer_id r.peers in
      let step : ScreenRouter × List BindingNotice = (
        record r { peers = map_values (forget peer_id) peers },
        sweep_notices (kind alive) peer_id release (told_cleared peers) peers,
      ) in
      if r.closed then (r, []) else assign_after step

unfoldable pub close : ScreenRouter → ScreenRouter
close r = if r.closed then r else record r { closed = true; peers = []; delay_queue = [] }

pub record Stats : Type 0 where
  pub streaming_publishers : ℕ
  pub bound_slots : ℕ
  pub free_slots : ℕ

unfoldable pub count_slots : List OutputPair → Stats → Stats
count_slots [] stats = stats
count_slots (pair ∷ pairs) stats = count_slots pairs (elim pair.publisher [
  | none ↦ record stats { free_slots = stats.free_slots + 1 }
  | some p ↦ record stats { bound_slots = stats.bound_slots + 1 }
])

unfoldable pub count_peers : (Track → Bool) → Peers → Stats → Stats
count_peers alive [] stats = stats
count_peers alive ((id, peer) ∷ peers) stats =
    let publishes = peer.streaming && is_live alive peer.input_video in
    let counted = record stats { streaming_publishers = stats.streaming_publishers + 1 } in
    count_peers alive peers (count_slots peer.outputs (if publishes then counted else stats))

unfoldable pub stats : (Track → Bool) → ScreenRouter → Stats
stats alive r =
    count_peers alive r.peers record { streaming_publishers = 0; bound_slots = 0; free_slots = 0 }

pub record Target : Type 0 where
  pub track : Option Track
  pub ssrc : ℕ
  pub rewriter : RtpSlotRewriter
  pub source_generation : ℕ

abbrev pub ready_target : Option OutputTrack → List Target
ready_target none = []
ready_target (some output) =
    let target : Target = record {
      track = output.track;
      ssrc = output.ssrc;
      rewriter = output.rewriter;
      source_generation = output.source_generation;
    } in
    if output.ready then target ∷ [] else []

unfoldable pub pair_targets : PeerId → String → List OutputPair → List Target
pair_targets publisher media_type [] = []
pair_targets publisher media_type (pair ∷ pairs) =
    let rest = pair_targets publisher media_type pairs in
    let carries : Bool = elim pair.publisher [ none ↦ false | some q ↦ str_eq q publisher ] in
    if carries then ready_target (output_of media_type pair) ++ rest else rest

unfoldable pub collect_targets_locked : PeerId → String → Peers → List Target
collect_targets_locked publisher media_type [] = []
collect_targets_locked publisher media_type ((id, peer) ∷ peers) =
    pair_targets publisher media_type peer.outputs
    ++ collect_targets_locked publisher media_type peers
