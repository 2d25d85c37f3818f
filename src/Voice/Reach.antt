-- ===== src/Voice/Reach.antt =====
-- The router's methods (backend/signaling_server/src/voice_router.cpp) on valid bindings, and the
-- states that they reach.
use driscord.Common.{
  ℕ, ◌≤◌, refl, inl, inr, Bool, not, List, [], Option, none, some, String, str_eq, Option-cases,
  if◌then◌else◌, if_cases, arith,
}
use native.Mathlib.Nat.{le_refl, le_trans}
use driscord.Common.Assoc.{lookup, insert, erase, map_values, lookup-erase}
use driscord.Media.{fresh_fault_state, fresh_link_state}
use driscord.Signaling.{PeerId}
use driscord.Voice.{
  Track, PeerState, BindingNotice, Peers, VoiceRouter, initial, new_peer, peer_for_locked,
}
use driscord.Voice.Slots.{count, AllCurrent}
use driscord.Binding.Peers.{
  AllPeers, IsPresent-insert, IsPresent-map_values, AllPeers-erase, AllPeers-map_values,
}
use driscord.Voice.Register.{
  Direction, send_only, recv_only, send_recv, inactive, TrackInfo, sweep_peer, restart_slot,
  clear_slot, put_output, assign_after, source_changed, register_input, register_output,
  register_track, remove_peer, close,
}
use driscord.Voice.Changes.{
  restart-count, restart-AllCurrent, clear-count, clear-AllCurrent, put-count, put-AllCurrent,
}
use driscord.Voice.Invariant.{
  IsBoundWell, IsValid, IsBoundWell-weaken, insert-IsBoundWell, assign_available_locked-IsValid,
}

-- A state with fewer bindings than one that is bound well.
shrunk :
    (peers : Peers) (id : String) (peer peer' : PeerState)
    → ((q : PeerId) → count q peer'.outputs ≤ count q peer.outputs)
    → AllCurrent peer'.outputs
    → IsBoundWell peers id peer
    → IsBoundWell peers id peer'
shrunk peers id peer peer' fewer current w = record {
  once = λ q. le_trans (fewer q) (w.once q);
  not_itself = omega (arith, fewer id, w.not_itself);
  present = λ q h. w.present q (le_trans h (fewer q));
  current = current;
}

new_peer-IsBoundWell :
    (peers : Peers) (id : String) (order : ℕ) → IsBoundWell peers id (new_peer order)
unfolding count
new_peer-IsBoundWell peers id order = record {
  once = λ q. omega arith;
  not_itself = refl;
  present = λ q h. absurd (omega arith);
  current = tt;
}

peer_for_locked-IsBoundWell :
    (r : VoiceRouter) (owner : PeerId)
    → IsValid r
    → let (peer, r1) = peer_for_locked r owner in IsBoundWell r1.peers owner peer × IsValid r1
unfolding peer_for_locked
peer_for_locked-IsBoundWell r owner w = elim (Option-cases (lookup owner r.peers)) [
  | inl e ↦
      let fresh = new_peer-IsBoundWell r.peers owner r.next_peer_order in
      let wider = IsBoundWell-weaken r.peers _ (IsPresent-insert r.peers owner _) in
      rw (e, peer_for_locked)
        (
          wider owner (new_peer r.next_peer_order) fresh,
          insert-IsBoundWell r.peers owner (new_peer r.next_peer_order) fresh w,
        )
  | inr (peer, e) ↦ rw (e, peer_for_locked) (w owner peer e, w)
]

restarted-IsBoundWell :
    (peers : Peers) (owner : PeerId)
    → AllPeers (IsBoundWell peers) peers
    → let peers' = map_values (sweep_peer owner restart_slot (some owner)) peers in
      AllPeers (IsBoundWell peers') peers'
restarted-IsBoundWell peers owner w =
    let peers' = map_values (sweep_peer owner restart_slot (some owner)) peers in
    AllPeers-map_values (IsBoundWell peers) (IsBoundWell peers') peers
      (sweep_peer owner restart_slot (some owner))
      (λ id peer b.
        IsBoundWell-weaken peers peers'
          (IsPresent-map_values peers (sweep_peer owner restart_slot (some owner))) id _
          (shrunk peers id peer (sweep_peer owner restart_slot (some owner) id peer)
            (λ q. omega (arith, restart-count owner (some owner) peer.send_binding q peer.outputs))
            (restart-AllCurrent owner (some owner) peer.send_binding peer.outputs b.current) b))
      w

-- Without a peer, and without the bindings to it.
left-IsBoundWell :
    (peers : Peers) (owner : PeerId)
    → AllPeers (IsBoundWell peers) peers
    → let peers' = map_values (sweep_peer owner clear_slot none) (erase owner peers) in
      AllPeers (IsBoundWell peers') peers'
left-IsBoundWell peers owner w =
    let peers' = map_values (sweep_peer owner clear_slot none) (erase owner peers) in
    AllPeers-map_values (IsBoundWell peers) (IsBoundWell peers') (erase owner peers)
      (sweep_peer owner clear_slot none)
      (λ id peer b.
        let cleared = clear-count owner none peer.send_binding in
        record {
          once = λ q. ground (arith, cleared q peer.outputs, b.once q);
          not_itself = ground (arith, cleared id peer.outputs, b.not_itself);
          present = λ q h.
              IsPresent-map_values (erase owner peers) (sweep_peer owner clear_slot none) q (λ n.
                b.present q (ground (arith, cleared q peer.outputs))
                  (ground (arith, cleared q peer.outputs, lookup-erase owner q peers)));
          current = clear-AllCurrent owner none peer.send_binding peer.outputs b.current;
        })
      (AllPeers-erase (IsBoundWell peers) peers owner w)

abbrev ValidAfter : VoiceRouter × List BindingNotice → Type 0
ValidAfter step = IsValid step.0

module _ (alive : Track → Bool) where
  assign_after-IsValid :
      (step : VoiceRouter × List BindingNotice)
      → IsValid step.0
      → IsValid (assign_after alive step).0
  unfolding assign_after
  assign_after-IsValid (r, notices) w = assign_available_locked-IsValid alive r w

  register_input-IsValid :
      (r : VoiceRouter) (owner : PeerId) (track : TrackInfo) (send : Option ℕ)
      → IsValid r
      → IsValid (register_input alive r owner track send).0
  unfolding register_input
  register_input-IsValid r owner track send w =
      let (peer, r1) = peer_for_locked r owner in
      let well = peer_for_locked-IsBoundWell r owner w in
      let changed = source_changed alive peer.input track.id in
      let peer' : PeerState = record peer {
        input_fault_state = if changed then fresh_fault_state else peer.input_fault_state;
        input_link_state = if changed then fresh_link_state else peer.input_link_state;
        input = some track.id;
        input_mid_extension_id = track.mid_extension_id;
        send_binding = send;
      } in
      let inserted =
        insert-IsBoundWell r1.peers owner peer'
          (shrunk r1.peers owner peer peer' (λ q. le_refl _) well.0.current well.0) well.1 in
      if_cases ValidAfter r.closed _ _ (λ c. w)
        (λ c. assign_after-IsValid _ (
          if_cases ValidAfter changed _ _
            (λ t. restarted-IsBoundWell (insert owner peer' r1.peers) owner inserted)
            (λ t. inserted)))

  register_output-IsValid :
      (r : VoiceRouter) (owner : PeerId) (track : TrackInfo) (ssrc : ℕ) (send : Option ℕ)
      → IsValid r
      → IsValid (register_output alive r owner track ssrc send).0
  unfolding register_output
  register_output-IsValid r owner track ssrc send w =
      let (peer, r1) = peer_for_locked r owner in
      let well = peer_for_locked-IsBoundWell r owner w in
      let put = put_output track ssrc send peer.outputs in
      let peer' : PeerState = record peer { send_binding = send; outputs = put.outputs } in
      if_cases ValidAfter r.closed _ _ (λ c. w)
        (λ c. assign_after-IsValid _ (
          insert-IsBoundWell r1.peers owner peer'
            (shrunk r1.peers owner peer peer' (λ q. put-count track ssrc send q peer.outputs)
              (put-AllCurrent track ssrc send peer.outputs well.0.current) well.0)
            well.1))

  pub register_track-IsValid :
      (r : VoiceRouter) (owner : PeerId) (track : TrackInfo) (ssrc : ℕ) (send : Option ℕ)
      → IsValid r
      → IsValid (register_track alive r owner track ssrc send).0
  unfolding register_track
  register_track-IsValid r owner track ssrc send w =
      if_cases ValidAfter (not (str_eq track.media_type "audio")) _ _ (λ t. w)
        (λ t. by_direction track.direction)
    where
      by_direction :
          (d : Direction)
          → IsValid
              (elim d as (λ _. VoiceRouter × List BindingNotice) [
                | recv_only ↦ register_input alive r owner track send
                | send_only ↦ register_output alive r owner track ssrc send
                | send_recv ↦ (r, [])
                | inactive ↦ (r, [])
              ]).0
      by_direction recv_only = register_input-IsValid r owner track send w
      by_direction send_only = register_output-IsValid r owner track ssrc send w
      by_direction send_recv = w
      by_direction inactive = w

  pub remove_peer-IsValid :
      (r : VoiceRouter) (peer_id : PeerId) → IsValid r → IsValid (remove_peer alive r peer_id).0
  unfolding remove_peer
  remove_peer-IsValid r peer_id w =
      if_cases ValidAfter r.closed _ _ (λ c. w)
        (λ c. assign_after-IsValid _ (left-IsBoundWell r.peers peer_id w))

close-IsValid : (r : VoiceRouter) → IsValid r → IsValid (close r)
unfolding close lookup
close-IsValid r w = if_cases IsValid r.closed _ _ (λ c. w) (λ c id peer e. absurd cc)

-- The states that the methods reach from the first one, whatever tracks exist at each call.
pub data IsReached : VoiceRouter → Type 0 where
  started : IsReached initial
  registered :
      (r : VoiceRouter) (alive : Track → Bool) (owner : PeerId) (track : TrackInfo) (ssrc : ℕ)
      (send : Option ℕ)
      → IsReached r
      → IsReached (register_track alive r owner track ssrc send).0
  removed :
      (r : VoiceRouter) (alive : Track → Bool) (peer_id : PeerId)
      → IsReached r
      → IsReached (remove_peer alive r peer_id).0
  stopped : (r : VoiceRouter) → IsReached r → IsReached (close r)

initial-IsValid : IsValid initial
unfolding lookup
initial-IsValid id peer e = absurd cc

-- In every state that register_track, remove_peer and close reach from a new router, whatever
-- tracks exist at each call, a subscriber is bound to no publisher twice, never to itself and
-- only to peers of the router, and a bound slot carries the generation that its rewriter
-- accepts.
pub IsReached-IsValid : (r : VoiceRouter) → IsReached r → IsValid r
IsReached-IsValid r started = initial-IsValid
IsReached-IsValid r (registered r0 alive owner track ssrc send h) =
    register_track-IsValid alive r0 owner track ssrc send (IsReached-IsValid r0 h)
IsReached-IsValid r (removed r0 alive peer_id h) =
    remove_peer-IsValid alive r0 peer_id (IsReached-IsValid r0 h)
IsReached-IsValid r (stopped r0 h) = close-IsValid r0 (IsReached-IsValid r0 h)
