-- ===== src/Screen/Effects.antt =====
-- What the screen router's methods (backend/signaling_server/src/screen_router.cpp) achieve.
use driscord.Common.{
  ◌==◌, ◌≡◌, ◌≢◌, refl, sym, ap, ◌∙◌, inl, inr, Bool, true, false, not, ◌&&◌, ◌||◌, List, none,
  some, str_eq, str_eq_refl, eq_iff, Bool-cases, if_cases, arith,
}
use mathlib.Core.Option
use driscord.Common.Assoc.{
  lookup, insert, keys, contains, lookup-insert, lookup-map_values, lookup-contains,
  contains-keys-insert, contains-keys-erase,
}
use driscord.Common.Sort.{contains-sort_ids}
use driscord.Signaling.{PeerId}
use driscord.Voice.{Track, is_live}
use driscord.Binding.Slots.{count}
use driscord.Binding.Sweep.{sweep_peer}
use driscord.Binding.Rounds.{
  Related, Related-Alike, Later, IsServed, assign_all-Related, assign_all-IsServed,
}
use driscord.Screen.{
  PeerState, BindingNotice, Peers, ScreenRouter, kind, peer_for_locked, is_available, comes_before,
  ordered_peers_locked, assign_available_locked,
}
use driscord.Screen.Pairs.{release}
use driscord.Screen.Methods.{assign_after, set_streaming, set_watching}
use driscord.Screen.Regular.{Same, Alike, kind-IsRegular, wanted_watched}
use driscord.Screen.Valid.{AreWell, peer_for_locked-AreWell}
use driscord.Screen.Reach.{set_streaming-AreWell, set_watching-AreWell}

module _ (alive : Track → Bool) where
  ordered_contains :
      (peers : Peers) (s : PeerId) (peer : PeerState)
      → lookup s peers ≡ some peer
      → contains (ordered_peers_locked peers) s ≡ true
  unfolding ordered_peers_locked
  ordered_contains peers s peer e =
      contains-sort_ids (comes_before peers) (keys peers) s ∙ lookup-contains s peers peer e

  available_of :
      (peers : Peers) (s p : PeerId) (source : PeerState)
      → p ≢ s
      → lookup p peers ≡ some source
      → source.streaming ≡ true
      → is_live alive source.input_video ≡ true
      → is_available alive peers s p ≡ true
  unfolding is_available
  available_of peers s p source other e streams live = ground (arith, eq_iff p s, other)

  -- After the screen router's assign_available_locked, a subscriber that watches another peer
  -- which streams and has a live video track carries it in a pair, or has no free pair left;
  -- the pairs that were taken before are unchanged, and every output keeps its MID, its SSRC,
  -- its track and its readiness.
  pub assign_available_locked-serves :
      (r : ScreenRouter) (s p : PeerId) (before source : PeerState)
      → lookup s r.peers ≡ some before
      → contains (keys before.watched_publishers) p ≡ true
      → p ≢ s
      → lookup p r.peers ≡ some source
      → source.streaming ≡ true
      → is_live alive source.input_video ≡ true
      → (after : PeerState) × (lookup s (assign_available_locked alive r).0.peers ≡ some after)
        × Later (kind alive) Same Alike (kind-IsRegular alive) before after
        × IsServed (kind alive) Same Alike (kind-IsRegular alive) p after.outputs
  unfolding assign_available_locked
  assign_available_locked-serves r s p before source e watched other e' streams live =
      assign_all-IsServed (kind alive) Same Alike (kind-IsRegular alive)
        (ordered_peers_locked r.peers) r.peers s p before e
        (available_of r.peers s p source other e' streams live)
        (wanted_watched r.peers before p ∙ watched) (ordered_contains r.peers s before e)

  assigned : (r : ScreenRouter) → Related Alike r.peers (assign_available_locked alive r).0.peers
  unfolding assign_available_locked
  assigned r = Related-Alike (kind alive) Same Alike (kind-IsRegular alive) r.peers _ (
      assign_all-Related (kind alive) Same Alike (kind-IsRegular alive)
        (ordered_peers_locked r.peers) r.peers)

  -- What a peer keeps in the assignment that ends a method.
  pub after_present :
      (step : ScreenRouter × List BindingNotice) (id : PeerId) (peer : PeerState)
      → lookup id step.0.peers ≡ some peer
      → (after : PeerState) × (lookup id (assign_after alive step).0.peers ≡ some after)
        × Alike peer after
  unfolding assign_after
  after_present (r, notices) id peer e = (assigned r).present id peer e

  pub after_absent :
      (step : ScreenRouter × List BindingNotice) (id : PeerId)
      → lookup id step.0.peers ≡ none
      → lookup id (assign_after alive step).0.peers ≡ none
  unfolding assign_after
  after_absent (r, notices) id e = (assigned r).absent id e

  -- A peer of the router, with a property.
  abbrev pub Has : (PeerState → Type 0) → PeerId → ScreenRouter × List BindingNotice → Type 0
  Has P id step = (peer : PeerState) × (lookup id step.0.peers ≡ some peer) × P peer

  Has-after :
      (P : PeerState → Type 0)
      → ((a b : PeerState) → Alike a b → P a → P b)
      → (id : PeerId) (step : ScreenRouter × List BindingNotice) → Has P id step
      → Has P id (assign_after alive step)
  Has-after P keep id step (peer, e, h) =
      let (after, e', alike) = after_present step id peer e in (after, e', keep peer after alike h)

  lookup-insert_self :
      (peers : Peers) (id : PeerId) (v : PeerState) → lookup id (insert id v peers) ≡ some v
  lookup-insert_self peers id v = ground (arith, lookup-insert id id v peers, str_eq_refl id)

  -- After set_streaming the peer is there and streams as it was told.
  set_streaming-streams :
      (r : ScreenRouter) (id : PeerId) (streaming : Bool)
      → r.closed ≡ false
      → AreWell alive r.peers
      → Has (λ p. p.streaming ≡ streaming) id (set_streaming alive r id streaming)
  unfolding set_streaming
  set_streaming-streams r id streaming running w =
      let (peer, r1) = peer_for_locked r id in
      let (here, _, _) = peer_for_locked-AreWell alive r id w in
      let v : PeerState = record peer { streaming = streaming } in
      let put = lookup-insert_self r1.peers id v in
      let P : PeerState → Type 0 = λ p. p.streaming ≡ streaming in
      let f = sweep_peer (kind alive) id release in
      if_cases (Has P id) r.closed _ _ (λ c. absurd cc)
        (λ _.
          if_cases (Has P id)
            ((peer.streaming && streaming) || (not peer.streaming && not streaming)) _ _
            (λ same. (peer, here, ground (arith, Bool-cases peer.streaming, Bool-cases streaming)))
            (λ _.
              Has-after P (λ a b alike h. sym alike.streaming ∙ h) id _
                (if_cases (Has P id) streaming _ _ (λ _. (v, put, refl))
                  (λ _. (
                    f id v,
                    lookup-map_values id f (insert id v r1.peers) ∙ ap (Option.map (f id)) put,
                    refl,
                  )))))

  -- After set_streaming on a screen router that is open and whose bindings are valid, the peer
  -- is there and streams exactly if it was told to, and when it was told to stop no subscriber
  -- carries it in a pair.
  pub set_streaming-unbound :
      (r : ScreenRouter) (q : PeerId) (streaming : Bool)
      → AreWell alive r.peers
      → r.closed ≡ false
      → let r' = (set_streaming alive r q streaming).0 in
        (p : PeerState) × (lookup q r'.peers ≡ some p)
        × (p.streaming ≡ streaming)
        × ((id : PeerId) (peer : PeerState)
            → streaming ≡ false
            → lookup id r'.peers ≡ some peer
            → count (kind alive) q peer.outputs ≡ 0)
  set_streaming-unbound r q streaming w running =
      let (p, here, told) = set_streaming-streams r q streaming running w in
      (
        p,
        here,
        told,
        λ id peer off e. elim (Bool-cases (count (kind alive) q peer.outputs == 0)) [
          | inl none_bound ↦ ground arith
          | inr positive ↦
              let a =
                (set_streaming-AreWell alive r q streaming w id peer e).allowed q (ground arith) in
              let same : some p ≡ some a.source = sym here ∙ a.present in
              let flag = ap (Option.map (λ (x : PeerState). x.streaming)) same in
              absurd (ground (arith, flag, told, off, a.streams))
        ],
      )

  -- After set_watching the watch is in the peer's list, or not, as it was told.
  set_watching-watches :
      (r : ScreenRouter) (id q : PeerId) (watching : Bool)
      → id ≢ q
      → r.closed ≡ false
      → AreWell alive r.peers
      → Has
          (λ p. contains (keys p.watched_publishers) q ≡ watching)
          id
          (set_watching alive r id q watching)
  unfolding set_watching
  set_watching-watches r id q watching other running w =
      let (peer, r1) = peer_for_locked r id in
      let (here, _, _) = peer_for_locked-AreWell alive r id w in
      let watched = contains (keys peer.watched_publishers) q in
      let P : PeerState → Type 0 = λ p. contains (keys p.watched_publishers) q ≡ watching in
      let keep : (a b : PeerState) → Alike a b → P a → P b =
        λ a b alike h. ap (λ m. contains (keys m) q) (sym alike.watched) ∙ h in
      if_cases (Has P id) (str_eq id q) _ _ (λ same. absurd (other ((eq_iff id q).0 same)))
        (λ _.
          if_cases (Has P id) r.closed _ _ (λ c. absurd cc)
            (λ _.
              if_cases (Has P id) watching _ _
                (λ on.
                  if_cases (Has P id) watched _ _ (λ yes. (peer, here, yes ∙ sym on))
                    (λ _. Has-after P keep id _ (
                      _,
                      lookup-insert_self r1.peers id _,
                      contains-keys-insert q q peer.next_watch_order peer.watched_publishers
                          ∙ ground (arith, str_eq_refl q, on),
                    )))
                (λ off.
                  if_cases (Has P id) watched _ _
                    (λ _. Has-after P keep id _ (
                      _,
                      lookup-insert_self r1.peers id _,
                      contains-keys-erase q q peer.watched_publishers
                          ∙ ground (arith, str_eq_refl q, off),
                    ))
                    (λ no. (peer, here, no ∙ sym off)))))

  -- After set_watching of another peer on a screen router that is open and whose bindings are
  -- valid, the subscriber is there, it watches the publisher exactly if it was told to, and
  -- when it was told to stop it carries the publisher in no pair.
  pub set_watching-unbound :
      (r : ScreenRouter) (id q : PeerId) (watching : Bool)
      → id ≢ q
      → r.closed ≡ false
      → AreWell alive r.peers
      → (peer : PeerState) × (lookup id (set_watching alive r id q watching).0.peers ≡ some peer)
        × (contains (keys peer.watched_publishers) q ≡ watching)
        × (watching ≡ false → count (kind alive) q peer.outputs ≡ 0)
  set_watching-unbound r id q watching other running w =
      let (p, here, told) = set_watching-watches r id q watching other running w in
      (
        p,
        here,
        told,
        λ off. elim (Bool-cases (count (kind alive) q p.outputs == 0)) [
          | inl none_bound ↦ ground arith
          | inr positive ↦
              let a =
                (set_watching-AreWell alive r id q watching w id p here).allowed q (ground arith) in
              absurd (ground (arith, told, off, a.watched))
        ],
      )
