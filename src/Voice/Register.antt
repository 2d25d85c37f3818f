-- ===== src/Voice/Register.antt =====
-- The router's methods: tracks that come, peers that leave, and what is read from the bindings.
use driscord.Common.{
  ℕ, Bool, true, not, List, [], ◌∷◌, ◌++◌, Option, none, some, String, str_eq, ◌==◌, if◌then◌else◌,
}
use driscord.Common.Assoc.{insert, erase, map_values}
use driscord.Rtp.Slot.{RtpSlotRewriter, new, begin_source, end_source}
use driscord.Media.{fresh_fault_state, fresh_link_state}
use driscord.Signaling.{PeerId}
use driscord.Voice.{
  Track, OutputSlot, PeerState, BindingNotice, Peers, VoiceRouter, lock, is_bound_to,
  peer_for_locked,
}
use driscord.Voice.Assign.{Filled, assign_available_locked}

pub data Direction : Type 0 where
  send_only recv_only send_recv inactive : Direction

-- What libdatachannel says of a track, with the identifier of its MID extension.
pub record TrackInfo : Type 0 where
  pub id : Track
  pub media_type : String
  pub direction : Direction
  pub mid : String
  pub mid_extension_id : Option ℕ

-- A loop over a subscriber's outputs that changes those that carry a publisher, each with a notice.
unfoldable pub sweep_slots :
    PeerId → (OutputSlot → OutputSlot) → Option PeerId → Option ℕ → List OutputSlot → Filled
sweep_slots owner change told send [] = record { outputs = []; notices = [] }
sweep_slots owner change told send (slot ∷ slots) =
    let rest = sweep_slots owner change told send slots in
    let notice : BindingNotice = record {
      send = send;
      mid = slot.mid;
      publisher = told;
      output = slot.track;
      ssrc = slot.ssrc;
    } in
    if is_bound_to owner slot
    then record { outputs = change slot ∷ rest.outputs; notices = notice ∷ rest.notices }
    else record { outputs = slot ∷ rest.outputs; notices = rest.notices }

-- The same over every peer.
abbrev pub sweep_peer :
    PeerId → (OutputSlot → OutputSlot) → Option PeerId → String → PeerState → PeerState
sweep_peer owner change told id peer = record peer {
  outputs = (sweep_slots owner change told peer.send_binding peer.outputs).outputs;
}

unfoldable pub sweep_notices :
    PeerId → (OutputSlot → OutputSlot) → Option PeerId → Peers → List BindingNotice
sweep_notices owner change told [] = []
sweep_notices owner change told ((id, peer) ∷ peers) =
    (sweep_slots owner change told peer.send_binding peer.outputs).notices
    ++ sweep_notices owner change told peers

-- The publisher stays, with a new source.
abbrev pub restart_slot : OutputSlot → OutputSlot
restart_slot slot =
    let (rewriter, generation) = begin_source slot.rewriter in
    record slot { rewriter = rewriter; source_generation = generation }

abbrev pub clear_slot : OutputSlot → OutputSlot
clear_slot slot = record slot {
  rewriter = end_source slot.rewriter;
  source_generation = 0;
  publisher = none;
}

-- `peer.input.lock() != track`.
abbrev pub source_changed : (Track → Bool) → Option Track → Track → Bool
source_changed alive input track = elim (lock alive input) [
  | none ↦ true
  | some t ↦ not (t == track)
]

-- An output of a MID that is known is replaced, with a notice if it was bound. Its old rewriter, which
-- the source ends, is dropped.
unfoldable pub replace_output : TrackInfo → ℕ → Option ℕ → List OutputSlot → Option Filled
replace_output track ssrc send [] = none
replace_output track ssrc send (slot ∷ slots) =
    let rest : Option Filled = elim (replace_output track ssrc send slots) [
      | none ↦ none
      | some f ↦ some (record f { outputs = slot ∷ f.outputs })
    ] in
    let replaced = record slot {
      ssrc = ssrc;
      track = some track.id;
      publisher = none;
      rewriter = new 48000 960;
      source_generation = 0;
    } in
    let notice : BindingNotice = record {
      send = send;
      mid = slot.mid;
      publisher = none;
      output = slot.track;
      ssrc = slot.ssrc;
    } in
    if str_eq slot.mid track.mid
    then some (record {
      outputs = replaced ∷ slots;
      notices = elim slot.publisher [ none ↦ [] | some p ↦ notice ∷ [] ];
    })
    else rest

abbrev pub new_output : TrackInfo → ℕ → OutputSlot
new_output track ssrc = record {
  mid = track.mid;
  ssrc = ssrc;
  track = some track.id;
  publisher = none;
  rewriter = new 48000 960;
  source_generation = 0;
}

-- The outputs with the track among them.
unfoldable pub put_output : TrackInfo → ℕ → Option ℕ → List OutputSlot → Filled
put_output track ssrc send outputs = elim (replace_output track ssrc send outputs) [
  | none ↦ record { outputs = outputs ++ new_output track ssrc ∷ []; notices = [] }
  | some f ↦ f
]

module _ (alive : Track → Bool) where
  -- The notices that were collected so far, and those of the slots that are assigned then.
  unfoldable pub assign_after : VoiceRouter × List BindingNotice → VoiceRouter × List BindingNotice
  assign_after (r, notices) =
      let (r', assigned) = assign_available_locked alive r in (r', notices ++ assigned)

  unfoldable pub register_input :
      VoiceRouter → PeerId → TrackInfo → Option ℕ → VoiceRouter × List BindingNotice
  register_input r owner track send_binding =
      let (peer, r1) = peer_for_locked r owner in
      let changed = source_changed alive peer.input track.id in
      let peer' = record peer {
        input_fault_state = if changed then fresh_fault_state else peer.input_fault_state;
        input_link_state = if changed then fresh_link_state else peer.input_link_state;
        input = some track.id;
        input_mid_extension_id = track.mid_extension_id;
        send_binding = send_binding;
      } in
      let peers = insert owner peer' r1.peers in
      let restarted = map_values (sweep_peer owner restart_slot (some owner)) peers in
      let step : VoiceRouter × List BindingNotice =
        if changed
        then (record r1 { peers = restarted }, sweep_notices owner restart_slot (some owner) peers)
        else (record r1 { peers = peers }, []) in
      if r.closed then (r, []) else assign_after step

  unfoldable pub register_output :
      VoiceRouter → PeerId → TrackInfo → ℕ → Option ℕ → VoiceRouter × List BindingNotice
  register_output r owner track ssrc send_binding =
      let (peer, r1) = peer_for_locked r owner in
      let put = put_output track ssrc send_binding peer.outputs in
      let peer' = record peer { send_binding = send_binding; outputs = put.outputs } in
      let step : VoiceRouter × List BindingNotice =
        (record r1 { peers = insert owner peer' r1.peers }, put.notices) in
      if r.closed then (r, []) else assign_after step

  -- `ssrc` is what `allocate_slot_ssrc` returns.
  unfoldable pub register_track :
      VoiceRouter → PeerId → TrackInfo → ℕ → Option ℕ → VoiceRouter × List BindingNotice
  register_track r owner track ssrc send_binding =
      if not (str_eq track.media_type "audio") then (r, []) else elim track.direction [
        | recv_only ↦ register_input r owner track send_binding
        | send_only ↦ register_output r owner track ssrc send_binding
        | _ ↦ (r, [])
      ]

  unfoldable pub remove_peer : VoiceRouter → PeerId → VoiceRouter × List BindingNotice
  remove_peer r peer_id =
      let peers = erase peer_id r.peers in
      let step : VoiceRouter × List BindingNotice = (
        record r { peers = map_values (sweep_peer peer_id clear_slot none) peers },
        sweep_notices peer_id clear_slot none peers,
      ) in
      if r.closed then (r, []) else assign_after step

unfoldable pub close : VoiceRouter → VoiceRouter
close r = if r.closed then r else record r { closed = true; peers = [] }

pub record Target : Type 0 where
  pub track : Option Track
  pub ssrc : ℕ
  pub rewriter : RtpSlotRewriter
  pub source_generation : ℕ

unfoldable pub slot_targets : PeerId → List OutputSlot → List Target
slot_targets publisher [] = []
slot_targets publisher (slot ∷ slots) =
    let rest = slot_targets publisher slots in
    let target : Target = record {
      track = slot.track;
      ssrc = slot.ssrc;
      rewriter = slot.rewriter;
      source_generation = slot.source_generation;
    } in
    if is_bound_to publisher slot then target ∷ rest else rest

unfoldable pub collect_targets_locked : PeerId → Peers → List Target
collect_targets_locked publisher [] = []
collect_targets_locked publisher ((id, peer) ∷ peers) =
    slot_targets publisher peer.outputs ++ collect_targets_locked publisher peers
