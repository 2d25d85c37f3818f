-- ===== src/Screen/Reach.antt =====
-- The screen router's methods (backend/signaling_server/src/screen_router.cpp) for streams, watches and
-- peers that leave, on valid bindings, and the states that all methods reach.
use driscord.Common.{
  ℕ, ◌≡◌, ◌≢◌, refl, sym, ◌∙◌, Bool, false, not, ◌&&◌, ◌||◌, Option, none, some, String, str_eq,
  eq_iff, if_cases, if_false, arith,
}
use native.Mathlib.Nat.{le_refl}
use driscord.Common.Assoc.{
  lookup, insert, erase, keys, contains, map_values, lookup-insert, lookup-erase,
  contains-keys-insert, contains-keys-erase,
}
use driscord.Signaling.{PeerId}
use driscord.Voice.{Track}
use driscord.Voice.Register.{TrackInfo}
use driscord.Binding.Peers.{AllPeers-insert, AllPeers-erase}
use driscord.Binding.Sweep.{sweep_peer, sweep-count_clear, sweep-All}
use driscord.Screen.{PeerState, Peers, ScreenRouter, initial, kind, peer_for_locked}
use driscord.Screen.Pairs.{release}
use driscord.Screen.Methods.{
  forget, begin_output, finish_output, register_track, set_streaming, told_cleared, set_watching,
  remove_peer, close,
}
use driscord.Screen.Regular.{IsCurrent}
use driscord.Screen.Restart.{release-IsCurrent}
use driscord.Screen.Valid.{IsWell, AreWell, AreWell-alive, peer_for_locked-AreWell}
use driscord.Screen.Changes.{
  Streams, ValidAfter, changed-IsWell, assign_after-AreWell, released-AreWell,
}
use driscord.Screen.Tracks.{
  mapped-Streams, replaced-AreWell, begin_output-AreWell, finish_output-AreWell,
  register_track-AreWell,
}

module _ (alive : Track → Bool) where
  -- A peer that stops: the others stream as before.
  stopped_stream :
      (peers : Peers) (k : PeerId) (v : PeerState) (f : PeerId → PeerState → PeerState)
      → ((id : PeerId) (peer : PeerState) → (f id peer).streaming ≡ peer.streaming)
      → Streams alive peers (map_values f (insert k v peers)) (λ q. q ≢ k)
  stopped_stream peers k v f same q old other e s =
      let differ : str_eq k q ≡ false = ground (arith, eq_iff k q, other) in
      mapped-Streams alive (insert k v peers) f same q old
        (lookup-insert k q v peers
          ∙ sym (if_false (str_eq k q) (some v) (lookup q peers) differ)
          ∙ e)
        s

  pub set_streaming-AreWell :
      (r : ScreenRouter) (peer_id : PeerId) (streaming : Bool)
      → AreWell alive r.peers
      → AreWell alive (set_streaming alive r peer_id streaming).0.peers
  unfolding set_streaming
  set_streaming-AreWell r peer_id streaming w =
      let (peer, r1) = peer_for_locked r peer_id in
      let (here, well, all) = peer_for_locked-AreWell alive r peer_id w in
      let v : PeerState = record peer { streaming = streaming } in
      let as_before : IsWell alive r1.peers peer_id v =
        changed-IsWell alive r1.peers r1.peers (λ q. Unit {0}) peer_id peer v
          (λ q old _ e s. (old, e, s)) (λ q. le_refl _) (λ q h. tt) (λ q h k. k) well.current
          well in
      if_cases (ValidAfter alive) r.closed _ _ (λ c. w)
        (λ c.
          if_cases (ValidAfter alive)
            ((peer.streaming && streaming) || (not peer.streaming && not streaming)) _ _ (λ e. all)
            (λ e. assign_after-AreWell alive _ (
              if_cases (ValidAfter alive) streaming _ _
                (λ on.
                  replaced-AreWell alive r1.peers peer_id peer v here (λ s. on) (λ q. le_refl _)
                    (λ q h k. k) well.current all)
                (λ off.
                  released-AreWell alive peer_id r1.peers (insert peer_id v r1.peers)
                    (sweep_peer (kind alive) peer_id release)
                    (stopped_stream r1.peers peer_id v (sweep_peer (kind alive) peer_id release)
                      (λ i p. refl))
                    (λ i p. refl) (λ i p q _ h. h)
                    (AllPeers-insert (IsWell alive r1.peers) r1.peers peer_id v as_before all)))))

  pub set_watching-AreWell :
      (r : ScreenRouter) (peer_id publisher_id : PeerId) (watching : Bool)
      → AreWell alive r.peers
      → AreWell alive (set_watching alive r peer_id publisher_id watching).0.peers
  unfolding set_watching
  set_watching-AreWell r peer_id publisher_id watching w =
      let (peer, r1) = peer_for_locked r peer_id in
      let (here, well, all) = peer_for_locked-AreWell alive r peer_id w in
      let watched = contains (keys peer.watched_publishers) publisher_id in
      let told = told_cleared r1.peers peer in
      let released = λ (q : PeerId).
        sweep-count_clear (kind alive) publisher_id release told (λ s. refl) q peer.outputs in
      if_cases (ValidAfter alive) (str_eq peer_id publisher_id) _ _ (λ c. w)
        (λ _.
          if_cases (ValidAfter alive) r.closed _ _ (λ c. w)
            (λ _.
              if_cases (ValidAfter alive) watching _ _
                (λ _.
                  if_cases (ValidAfter alive) watched _ _ (λ _. all)
                    (λ _. assign_after-AreWell alive _ (
                      replaced-AreWell alive r1.peers peer_id peer _ here (λ s. s) (λ q. le_refl _)
                        (λ q h k.
                          contains-keys-insert publisher_id q peer.next_watch_order
                            peer.watched_publishers
                          ∙ ground (arith, k))
                        well.current all)))
                (λ _.
                  if_cases (ValidAfter alive) watched _ _
                    (λ _. assign_after-AreWell alive _ (
                      replaced-AreWell alive r1.peers peer_id peer _ here (λ s. s)
                        (λ q. ground (arith, released q))
                        (λ q h k.
                          contains-keys-erase publisher_id q peer.watched_publishers
                          ∙ ground (arith, k, released q))
                        (sweep-All (kind alive) publisher_id release told IsCurrent
                          (λ s e c. release-IsCurrent s) peer.outputs well.current)
                        all))
                    (λ _. all))))

  pub remove_peer-AreWell :
      (r : ScreenRouter) (peer_id : PeerId)
      → AreWell alive r.peers
      → AreWell alive (remove_peer alive r peer_id).0.peers
  unfolding remove_peer
  remove_peer-AreWell r peer_id w =
      let f = forget alive peer_id in
      if_cases (ValidAfter alive) r.closed _ _ (λ c. w)
        (λ c. assign_after-AreWell alive _ (
          released-AreWell alive peer_id r.peers (erase peer_id r.peers) f
            (λ q old other e s.
              let differ : str_eq peer_id q ≡ false = ground (arith, eq_iff peer_id q, other) in
              mapped-Streams alive (erase peer_id r.peers) f (λ i p. refl) q old
                (lookup-erase peer_id q r.peers
                  ∙ sym (if_false (str_eq peer_id q) none (lookup q r.peers) differ)
                  ∙ e)
                s)
            (λ i p. refl)
            (λ i p q other h.
              contains-keys-erase peer_id q p.watched_publishers
              ∙ ground (arith, h, eq_iff peer_id q, other))
            (AllPeers-erase (IsWell alive r.peers) r.peers peer_id w)))

close-AreWell :
    (alive : Track → Bool) (r : ScreenRouter)
    → AreWell alive r.peers
    → AreWell alive (close r).peers
unfolding close lookup
close-AreWell alive r w =
    if_cases (λ (s : ScreenRouter). AreWell alive s.peers) r.closed _ _ (λ c. w)
      (λ c id peer e. absurd cc)

-- The states that the methods reach from the first one, whatever tracks exist at each call. The two
-- parts of `register_output` stand for themselves too, so that `close` may come between them.
pub data IsReached : ScreenRouter → Type 0 where
  started : IsReached initial
  registered :
      (r : ScreenRouter) (alive : Track → Bool) (owner : PeerId) (track : TrackInfo) (ssrc : ℕ)
      (token : String) (send : Option ℕ)
      → IsReached r
      → IsReached (register_track alive r owner track ssrc token send).0
  begun :
      (r : ScreenRouter) (alive : Track → Bool) (owner : PeerId) (track : TrackInfo) (ssrc : ℕ)
      (token : String) (send : Option ℕ)
      → IsReached r
      → IsReached (begin_output alive r owner track ssrc token send).0
  finished :
      (r : ScreenRouter) (alive : Track → Bool) (owner : PeerId) (track : TrackInfo)
      → IsReached r
      → IsReached (finish_output alive r owner track).0
  streamed :
      (r : ScreenRouter) (alive : Track → Bool) (peer_id : PeerId) (streaming : Bool)
      → IsReached r
      → IsReached (set_streaming alive r peer_id streaming).0
  watched :
      (r : ScreenRouter) (alive : Track → Bool) (peer_id publisher_id : PeerId) (watching : Bool)
      → IsReached r
      → IsReached (set_watching alive r peer_id publisher_id watching).0
  removed :
      (r : ScreenRouter) (alive : Track → Bool) (peer_id : PeerId)
      → IsReached r
      → IsReached (remove_peer alive r peer_id).0
  stopped : (r : ScreenRouter) → IsReached r → IsReached (close r)

initial-AreWell : (alive : Track → Bool) → AreWell alive initial.peers
unfolding lookup
initial-AreWell alive id peer e = absurd cc

-- In every state of the screen router that register_track, either part of register_output,
-- set_streaming, set_watching, remove_peer and close reach from a new one, in any order and
-- whatever tracks exist at each call: a subscriber is bound to no publisher twice, and only to
-- other peers of the router that it watches and that stream; a pair that carries a publisher
-- has both outputs, ready and with the source that the rewriter accepts, and one that carries
-- nobody has no source.
pub IsReached-AreWell :
    (r : ScreenRouter) → IsReached r → (alive : Track → Bool) → AreWell alive r.peers
IsReached-AreWell r started alive = initial-AreWell alive
IsReached-AreWell r (registered r0 a owner track ssrc token send h) alive =
    AreWell-alive a alive _
      (register_track-AreWell a r0 owner track ssrc token send (IsReached-AreWell r0 h a))
IsReached-AreWell r (begun r0 a owner track ssrc token send h) alive =
    AreWell-alive a alive _
      (begin_output-AreWell a r0 owner track ssrc token send (IsReached-AreWell r0 h a))
IsReached-AreWell r (finished r0 a owner track h) alive =
    AreWell-alive a alive _ (finish_output-AreWell a r0 owner track (IsReached-AreWell r0 h a))
IsReached-AreWell r (streamed r0 a peer_id streaming h) alive =
    AreWell-alive a alive _
      (set_streaming-AreWell a r0 peer_id streaming (IsReached-AreWell r0 h a))
IsReached-AreWell r (watched r0 a peer_id publisher_id watching h) alive =
    AreWell-alive a alive _
      (set_watching-AreWell a r0 peer_id publisher_id watching (IsReached-AreWell r0 h a))
IsReached-AreWell r (removed r0 a peer_id h) alive =
    AreWell-alive a alive _ (remove_peer-AreWell a r0 peer_id (IsReached-AreWell r0 h a))
IsReached-AreWell r (stopped r0 h) alive = close-AreWell alive r0 (IsReached-AreWell r0 h alive)
