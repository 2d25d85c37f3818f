-- ===== src/Screen/Tracks.antt =====
-- The screen router's methods (backend/signaling_server/src/screen_router.cpp) for tracks, on valid bindings.
use driscord.Common.{
  ℕ, ◌<◌, ◌≤◌, ◌≡◌, refl, sym, ap, ◌∙◌, subst, inl, inr, Bool, true, not, ◌||◌, List, [], Option,
  some, String, str_eq, eq_iff, Option-cases, Bool-cases, if_cases, if_false, arith,
}
use mathlib.Core.Option
use driscord.Common.Assoc.{
  lookup, insert, keys, contains, map_values, lookup-insert, lookup-map_values,
}
use driscord.Signaling.{PeerId}
use driscord.Voice.{Track}
use driscord.Voice.Register.{
  Direction, send_only, recv_only, send_recv, inactive, TrackInfo, source_changed,
}
use driscord.Binding.Slots.{count, All}
use driscord.Binding.Peers.{AllPeers-map_values}
use driscord.Binding.Sweep.{sweep_peer, sweep-count_keep, sweep-All}
use driscord.Screen.{PeerState, BindingNotice, Peers, ScreenRouter, kind, peer_for_locked}
use driscord.Screen.Pairs.{is_video, output_pair_for, restart_pair, mark_ready}
use driscord.Screen.Methods.{
  put_input, put_output, input_of, register_input, begin_output, finish_output, register_output,
  register_track,
}
use driscord.Screen.Regular.{IsCurrent}
use driscord.Screen.Restart.{
  restart-IsCurrent_bound, restart_pair-publisher, output_pair_for-count, output_pair_for-IsCurrent,
  mark_ready-count, mark_ready-IsCurrent,
}
use driscord.Screen.Valid.{IsWell, AreWell, insert-AreWell, peer_for_locked-AreWell}
use driscord.Screen.Changes.{ValidAfter, changed-IsWell, assign_after-AreWell}

abbrev Anything : PeerId → Type 0
Anything q = Unit {0}

module _ (alive : Track → Bool) where
  -- After a change of one peer, with a map of all that leaves what streams.
  pub inserted-Streams :
      (peers : Peers) (k : PeerId) (v : PeerState)
      → ((old : PeerState) → lookup k peers ≡ some old → old.streaming ≡ true → v.streaming ≡ true)
      → (q : PeerId) (old : PeerState) → Unit {0}
      → lookup q peers ≡ some old
      → old.streaming ≡ true
      → (new : PeerState) × (lookup q (insert k v peers) ≡ some new) × (new.streaming ≡ true)
  inserted-Streams peers k v streams q old _ e s = elim (Bool-cases (str_eq k q)) [
    | inl same ↦
        let here = subst (λ x. lookup x peers ≡ some old) (sym ((eq_iff k q).0 same)) e in
        (v, ground (arith, lookup-insert k q v peers), streams old here s)
    | inr other ↦ (
      old,
      lookup-insert k q v peers ∙ sym (if_false (str_eq k q) (some v) (lookup q peers) other) ∙ e,
      s,
    )
  ]

  pub mapped-Streams :
      (peers : Peers) (f : PeerId → PeerState → PeerState)
      → ((id : PeerId) (peer : PeerState) → (f id peer).streaming ≡ peer.streaming)
      → (q : PeerId) (old : PeerState) → lookup q peers ≡ some old
      → old.streaming ≡ true
      → (new : PeerState) × (lookup q (map_values f peers) ≡ some new) × (new.streaming ≡ true)
  mapped-Streams peers f same q old e s =
      (f q old, lookup-map_values q f peers ∙ ap (Option.map (f q)) e, same q old ∙ s)

  streams_at :
      (peers : Peers) (k : PeerId) (peer v : PeerState)
      → lookup k peers ≡ some peer
      → (peer.streaming ≡ true → v.streaming ≡ true)
      → (old : PeerState) → lookup k peers ≡ some old
      → old.streaming ≡ true
      → v.streaming ≡ true
  streams_at peers k peer v here h old e s =
      let same : some old ≡ some peer = sym e ∙ here in
      let streams : Option.map (λ (p : PeerState). p.streaming) (some old)
          ≡ Option.map (λ (p : PeerState). p.streaming) (some peer) =
        ap (Option.map (λ (p : PeerState). p.streaming)) same in
      h (ground arith)

  -- One peer's state is replaced by one that is bound to nobody new.
  pub replaced-AreWell :
      (peers : Peers) (k : PeerId) (peer v : PeerState)
      → lookup k peers ≡ some peer
      → (peer.streaming ≡ true → v.streaming ≡ true)
      → ((q : PeerId) → count (kind alive) q v.outputs ≤ count (kind alive) q peer.outputs)
      → ((q : PeerId)
          → 0 < count (kind alive) q v.outputs
          → contains (keys peer.watched_publishers) q ≡ true
          → contains (keys v.watched_publishers) q ≡ true)
      → All (kind alive) IsCurrent v.outputs
      → AreWell alive peers
      → AreWell alive (insert k v peers)
  replaced-AreWell peers k peer v here streams fewer watched current all =
      insert-AreWell alive peers k v (streams_at peers k peer v here streams)
        (changed-IsWell alive peers peers Anything k peer v (λ q old _ e s. (old, e, s)) fewer
          (λ q h. tt) watched current (all k peer here))
        all

  pub begin_output-AreWell :
      (r : ScreenRouter) (owner : PeerId) (track : TrackInfo) (ssrc : ℕ) (token : String)
      (send : Option ℕ)
      → AreWell alive r.peers
      → AreWell alive (begin_output alive r owner track ssrc token send).0.peers
  unfolding begin_output
  begin_output-AreWell r owner track ssrc token send w =
      let (peer, r1) = peer_for_locked r owner in
      let (here, well, all) = peer_for_locked-AreWell alive r owner w in
      let put = put_output r1.peers send track ssrc in
      let outputs = (output_pair_for put track.mid track.media_type token peer.outputs).0 in
      if_cases (ValidAfter alive) r.closed _ _ (λ c. w)
        (λ c.
          replaced-AreWell r1.peers owner peer
            (record peer { send_binding = send; outputs = outputs }) here (λ s. s)
            (output_pair_for-count r1.peers send track ssrc alive token peer.outputs) (λ q h k. k)
            (output_pair_for-IsCurrent r1.peers send track ssrc alive token peer.outputs
              well.current)
            all)

  pub finish_output-AreWell :
      (r : ScreenRouter) (owner : PeerId) (track : TrackInfo)
      → AreWell alive r.peers
      → AreWell alive (finish_output alive r owner track).0.peers
  unfolding finish_output
  finish_output-AreWell r owner track w = elim (Option-cases (lookup owner r.peers)) [
    | inl e ↦ rw (e, finish_output) w
    | inr (peer, e) ↦
        let outputs = mark_ready alive track.id track.mid track.media_type peer.outputs in
        rw (e, finish_output)
          (if_cases (ValidAfter alive) r.closed _ _ (λ c. w)
            (λ c. assign_after-AreWell alive _ (
              replaced-AreWell r.peers owner peer (record peer { outputs = outputs }) e (λ s. s)
                (mark_ready-count alive track.id track.mid track.media_type peer.outputs)
                (λ q h k. k)
                (mark_ready-IsCurrent alive track.id track.mid track.media_type peer.outputs
                  (w owner peer e).current)
                w)))
  ]

  register_output-AreWell :
      (r : ScreenRouter) (owner : PeerId) (track : TrackInfo) (ssrc : ℕ) (token : String)
      (send : Option ℕ)
      → AreWell alive r.peers
      → AreWell alive (register_output alive r owner track ssrc token send).0.peers
  unfolding register_output
  register_output-AreWell r owner track ssrc token send w =
      if_cases (ValidAfter alive) r.closed _ _ (λ c. w)
        (λ c.
          finish_output-AreWell _ owner track
            (begin_output-AreWell r owner track ssrc token send w))

  -- An input is another peer's matter: the outputs of its owner stay as they are.
  put_input-outputs :
      (peer : PeerState) (track : TrackInfo) (send : Option ℕ) (R : PeerState → Type 0)
      → ((v : PeerState)
          → v.outputs ≡ peer.outputs
          → v.streaming ≡ peer.streaming
          → v.watched_publishers ≡ peer.watched_publishers
          → R v)
      → R (put_input alive peer track send)
  put_input-outputs peer track send R h =
      if_cases R (is_video track.media_type) _ _ (λ e. h _ refl refl refl) (λ e. h _ refl refl refl)

  input-AreWell :
      (peers : Peers) (owner : PeerId) (peer : PeerState) (track : TrackInfo) (send : Option ℕ)
      → lookup owner peers ≡ some peer
      → AreWell alive peers
      → AreWell alive (insert owner (put_input alive peer track send) peers)
  input-AreWell peers owner peer track send here all =
      put_input-outputs peer track send (λ v. AreWell alive (insert owner v peers))
        (λ v outputs streaming watched.
          replaced-AreWell peers owner peer v here (λ s. streaming ∙ s)
            (λ q. omega (arith, ap (count (kind alive) q) outputs))
            (λ q h k. ap (λ w. contains (keys w) q) watched ∙ k)
            (subst (All (kind alive) IsCurrent) (sym outputs) (all owner peer here).current) all)

  restarted-AreWell :
      (peers : Peers) (owner : PeerId) (media_type : String)
      → AreWell alive peers
      → AreWell alive (map_values (sweep_peer (kind alive) owner (restart_pair media_type)) peers)
  restarted-AreWell peers owner media_type w =
      let f = sweep_peer (kind alive) owner (restart_pair media_type) in
      AllPeers-map_values (IsWell alive peers) (IsWell alive (map_values f peers)) peers f
        (λ id peer b.
          changed-IsWell alive peers (map_values f peers) Anything id peer (f id peer)
            (λ q old _ e s. mapped-Streams peers f (λ i p. refl) q old e s)
            (λ q. omega (
              arith,
              sweep-count_keep (kind alive) owner (restart_pair media_type) (λ s. [])
                  (restart_pair-publisher media_type) q peer.outputs,
            ))
            (λ q h. tt) (λ q h k. k)
            (sweep-All (kind alive) owner (restart_pair media_type) (λ s. []) IsCurrent
              (restart-IsCurrent_bound alive owner media_type) peer.outputs b.current)
            b)
        w

  register_input-AreWell :
      (r : ScreenRouter) (owner : PeerId) (track : TrackInfo) (send : Option ℕ)
      → AreWell alive r.peers
      → AreWell alive (register_input alive r owner track send).0.peers
  unfolding register_input
  register_input-AreWell r owner track send w =
      let (peer, r1) = peer_for_locked r owner in
      let (here, well, all) = peer_for_locked-AreWell alive r owner w in
      let changed = source_changed alive (input_of track.media_type peer) track.id in
      let put = input-AreWell r1.peers owner peer track send here all in
      if_cases (ValidAfter alive) r.closed _ _ (λ c. w)
        (λ c. assign_after-AreWell alive _ (
          if_cases (ValidAfter alive) changed _ _
            (λ e. restarted-AreWell _ owner track.media_type put) (λ e. put)))

  pub register_track-AreWell :
      (r : ScreenRouter) (owner : PeerId) (track : TrackInfo) (ssrc : ℕ) (token : String)
      (send : Option ℕ)
      → AreWell alive r.peers
      → AreWell alive (register_track alive r owner track ssrc token send).0.peers
  unfolding register_track
  register_track-AreWell r owner track ssrc token send w =
      if_cases (ValidAfter alive)
        (not (str_eq track.media_type "audio" || str_eq track.media_type "video")) _ _ (λ t. w)
        (λ t. by_direction track.direction)
    where
      by_direction :
          (d : Direction)
          → ValidAfter alive (elim d as (λ _. ScreenRouter × List BindingNotice) [
            | recv_only ↦ register_input alive r owner track send
            | send_only ↦ register_output alive r owner track ssrc token send
            | send_recv ↦ (r, [])
            | inactive ↦ (r, [])
          ])
      by_direction recv_only = register_input-AreWell r owner track send w
      by_direction send_only = register_output-AreWell r owner track ssrc token send w
      by_direction send_recv = w
      by_direction inactive = w
