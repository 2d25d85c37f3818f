-- ===== src/Voice/Saturation.antt =====
-- Whom `assign_available_locked` serves (backend/signaling_server/src/voice_router.cpp).
use driscord.Common.{
  ◌<◌, ◌≡◌, refl, sym, ◌∙◌, ap, subst, ◌⊎◌, inl, inr, Bool, true, false, List, [], ◌∷◌, some,
  str_eq, str_eq_refl, eq_iff, Option-cases, Bool-cases, if◌then◌else◌, arith,
}
use driscord.Common.Assoc.{lookup, keys, contains, lookup-insert, lookup-contains}
use driscord.Signaling.{PeerId}
use driscord.Voice.{
  Track, OutputSlot, PeerState, Peers, VoiceRouter, is_live, bound, comes_before,
  ordered_peers_locked,
}
use driscord.Common.Sort.{contains-sort_ids}
use driscord.Voice.Slots.{
  count, has_free, bound-contains, Extends, Extends-count, Extends-has_free, Extends-refl,
  Extends-trans,
}
use driscord.Voice.Assign.{is_audible, fill, assign_one, assign_all, assign_available_locked}
use driscord.Voice.Fill.{fill-IsServed, fill-Extends, fill-count_ge}

ordered_contains :
    (peers : Peers) (s : PeerId) (peer : PeerState)
    → lookup s peers ≡ some peer
    → contains (ordered_peers_locked peers) s ≡ true
unfolding ordered_peers_locked
ordered_contains peers s peer e =
    contains-sort_ids (comes_before peers) (keys peers) s ∙ lookup-contains s peers peer e

module _ (alive : Track → Bool) where
  one_round : List PeerId → Peers → PeerId → PeerState → PeerState
  one_round ordered peers id peer = record peer {
    outputs =
        (fill alive peer.send_binding (is_audible alive peers id) ordered (bound peer.outputs)
          peer.outputs).outputs;
  }

  lookup-assign_one_self :
      (ordered : List PeerId) (peers : Peers) (id : PeerId) (peer : PeerState)
      → lookup id peers ≡ some peer
      → lookup id (assign_one alive ordered peers id).0 ≡ some (one_round ordered peers id peer)
  unfolding assign_one one_round
  lookup-assign_one_self ordered peers id peer e =
      rw (e, assign_one)
        (lookup-insert id id (one_round ordered peers id peer) peers
          ∙ ap (λ b. if b then some (one_round ordered peers id peer) else lookup id peers)
              (str_eq_refl id))

  lookup-assign_one_other :
      (ordered : List PeerId) (peers : Peers) (id q : PeerId)
      → str_eq id q ≡ false
      → lookup q (assign_one alive ordered peers id).0 ≡ lookup q peers
  unfolding assign_one one_round
  lookup-assign_one_other ordered peers id q h = elim (Option-cases (lookup id peers)) [
    | inl e ↦ rw (e, assign_one) refl
    | inr (peer, e) ↦
        rw (e, assign_one)
          (lookup-insert id q (one_round ordered peers id peer) peers
            ∙ ap (λ b. if b then some (one_round ordered peers id peer) else lookup q peers) h)
  ]

  own_round :
      (ordered : List PeerId) (peers : Peers) (id s : PeerId) (peer : PeerState)
      → str_eq id s ≡ true
      → lookup s peers ≡ some peer
      → lookup s (assign_one alive ordered peers id).0 ≡ some (one_round ordered peers s peer)
  own_round ordered peers id s peer same e =
      subst
        (λ x. lookup s (assign_one alive ordered peers x).0 ≡ some (one_round ordered peers s peer))
        (sym ((eq_iff id s).0 same)) (lookup-assign_one_self ordered peers s peer e)

  input_unchanged :
      (ordered : List PeerId) (peers : Peers) (id q : PeerId) (peer : PeerState)
      → lookup q peers ≡ some peer
      → (peer' : PeerState) × (lookup q (assign_one alive ordered peers id).0 ≡ some peer')
        × (peer'.input ≡ peer.input)
        × Extends peer.outputs peer'.outputs
  unfolding one_round
  input_unchanged ordered peers id q peer e = elim (Bool-cases (str_eq id q)) [
    | inl same ↦ (
      one_round ordered peers q peer,
      own_round ordered peers id q peer same e,
      refl,
      fill-Extends alive peer.send_binding (is_audible alive peers q) ordered (bound peer.outputs)
          peer.outputs,
    )
    | inr other ↦ (
      peer,
      lookup-assign_one_other ordered peers id q other ∙ e,
      refl,
      Extends-refl peer.outputs,
    )
  ]

  audible_unchanged :
      (ordered : List PeerId) (peers : Peers) (id s p : PeerId)
      → is_audible alive peers s p ≡ true
      → is_audible alive (assign_one alive ordered peers id).0 s p ≡ true
  unfolding is_audible
  audible_unchanged ordered peers id s p h = elim (Option-cases (lookup p peers)) [
    | inl e ↦ absurd (ground arith)
    | inr (peer, e) ↦
        let (peer', e', same, _) = input_unchanged ordered peers id p peer e in
        let live : is_live alive peer'.input ≡ is_live alive peer.input = ap (is_live alive) same in
        ground arith
  ]

  -- A subscriber hears a publisher, or has no slot left for it.
  abbrev pub IsServed : PeerId → List OutputSlot → Type 0
  IsServed p outputs = (has_free alive outputs ≡ false) ⊎ (0 < count p outputs)

  IsServed-Extends :
      (p : PeerId) (ss ts : List OutputSlot) → Extends ss ts → IsServed p ss → IsServed p ts
  IsServed-Extends p ss ts h (inl e) = inl (Extends-has_free alive ss ts h e)
  IsServed-Extends p ss ts h (inr e) = inr (omega (arith, e, Extends-count p ss ts h))

  one_round-IsServed :
      (ordered : List PeerId) (peers : Peers) (s p : PeerId) (peer : PeerState)
      → is_audible alive peers s p ≡ true
      → contains ordered p ≡ true
      → IsServed p (one_round ordered peers s peer).outputs
  unfolding one_round
  one_round-IsServed ordered peers s p peer h k =
      let audible = is_audible alive peers s in
      let given = bound peer.outputs in
      elim (fill-IsServed alive peer.send_binding audible p ordered given peer.outputs h k) [
        | inl full ↦ inl full
        | inr (inr new) ↦ inr new
        | inr (inl old) ↦ inr (
            omega (
              arith,
              bound-contains p peer.outputs old,
              fill-count_ge alive peer.send_binding audible p ordered given peer.outputs,
            ))
      ]

  stays :
      (ordered ids : List PeerId) (peers : Peers) (s : PeerId) (before : PeerState)
      → lookup s peers ≡ some before
      → (after : PeerState) × (lookup s (assign_all alive ordered ids peers).0 ≡ some after)
        × Extends before.outputs after.outputs
  unfolding assign_all
  stays ordered [] peers s before e = (before, e, Extends-refl before.outputs)
  stays ordered (id ∷ ids) peers s before e =
      let (mid, e', _, h) = input_unchanged ordered peers id s before e in
      let (after, e'', k) = stays ordered ids (assign_one alive ordered peers id).0 s mid e' in
      (after, e'', Extends-trans before.outputs mid.outputs after.outputs h k)

  serves :
      (ordered ids : List PeerId) (peers : Peers) (s p : PeerId) (before : PeerState)
      → lookup s peers ≡ some before
      → is_audible alive peers s p ≡ true
      → contains ordered p ≡ true
      → contains ids s ≡ true
      → (after : PeerState) × (lookup s (assign_all alive ordered ids peers).0 ≡ some after)
        × Extends before.outputs after.outputs
        × IsServed p after.outputs
  unfolding assign_all contains one_round
  serves ordered [] peers s p before e h k c = absurd cc
  serves ordered (id ∷ ids) peers s p before e h k c =
      let peers' = (assign_one alive ordered peers id).0 in
      elim (Bool-cases (str_eq id s)) [
        | inl same ↦
            let mid = one_round ordered peers s before in
            let kept =
              fill-Extends alive before.send_binding (is_audible alive peers s) ordered
                (bound before.outputs) before.outputs in
            let (after, e', j) =
              stays ordered ids peers' s mid (own_round ordered peers id s before same e) in
            (
              after,
              e',
              Extends-trans before.outputs mid.outputs after.outputs kept j,
              IsServed-Extends p mid.outputs after.outputs j
                  (one_round-IsServed ordered peers s p before h k),
            )
        | inr other ↦
            serves ordered ids peers' s p before
              (lookup-assign_one_other ordered peers id s other ∙ e)
              (audible_unchanged ordered peers id s p h) k (ground arith)
      ]

  audible_contains :
      (peers : Peers) (s p : PeerId)
      → is_audible alive peers s p ≡ true
      → contains (ordered_peers_locked peers) p ≡ true
  unfolding is_audible
  audible_contains peers s p h = elim (Option-cases (lookup p peers)) [
    | inl e ↦ absurd (ground arith)
    | inr (peer, e) ↦ ordered_contains peers p peer e
  ]

  -- After assign_available_locked, a subscriber of the router has each publisher that it may
  -- hear (another peer with a live input) bound to a slot, or has no free slot left; the slots
  -- that were taken before are unchanged, and every slot keeps its MID, its SSRC and its track.
  pub assign_available_locked-IsServed :
      (r : VoiceRouter) (s p : PeerId) (before : PeerState)
      → lookup s r.peers ≡ some before
      → is_audible alive r.peers s p ≡ true
      → (after : PeerState) × (lookup s (assign_available_locked alive r).0.peers ≡ some after)
        × Extends before.outputs after.outputs
        × IsServed p after.outputs
  unfolding assign_available_locked
  assign_available_locked-IsServed r s p before e h =
      let ordered = ordered_peers_locked r.peers in
      serves ordered ordered r.peers s p before e h (audible_contains r.peers s p h)
        (ordered_contains r.peers s before e)
