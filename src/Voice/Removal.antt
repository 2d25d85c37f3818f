-- ===== src/Voice/Removal.antt =====
-- The router after `remove_peer` (backend/signaling_server/src/voice_router.cpp).
use driscord.Common.{
  ◌==◌, ◌≡◌, sym, ◌∙◌, ap, inl, inr, Bool, false, List, [], ◌∷◌, none, some, String, str_eq,
  str_eq_refl, eq_iff, Option-cases, Bool-cases, if◌then◌else◌, if_cases, if_false, arith, subst,
}
use mathlib.Core.Option
use driscord.Common.Assoc.{
  lookup, erase, map_values, lookup-insert, lookup-erase, lookup-map_values,
}
use driscord.Signaling.{PeerId}
use driscord.Voice.{Track, PeerState, BindingNotice, Peers, VoiceRouter}
use driscord.Voice.Slots.{count}
use driscord.Voice.Assign.{assign_one, assign_all, assign_available_locked}
use driscord.Voice.Register.{sweep_peer, clear_slot, assign_after, remove_peer}
use driscord.Voice.Invariant.{IsValid}
use driscord.Voice.Reach.{remove_peer-IsValid}

module _ (alive : Track → Bool) where
  assign_one-absent :
      (ordered : List PeerId) (peers : Peers) (id q : PeerId)
      → lookup q peers ≡ none
      → lookup q (assign_one alive ordered peers id).0 ≡ none
  unfolding assign_one
  assign_one-absent ordered peers id q h = elim (Option-cases (lookup id peers)) [
    | inl e ↦ rw (e, assign_one) h
    | inr (peer, e) ↦ elim (Bool-cases (str_eq id q)) [
      | inl same ↦
          absurd (ground (arith, subst (λ x. lookup x peers ≡ some peer) ((eq_iff id q).0 same) e))
      | inr other ↦
          rw (e, assign_one)
            (lookup-insert id q _ peers ∙ sym (if_false (str_eq id q) _ (lookup q peers) other) ∙ h)
    ]
  ]

  assign_all-absent :
      (ordered ids : List PeerId) (peers : Peers) (q : PeerId)
      → lookup q peers ≡ none
      → lookup q (assign_all alive ordered ids peers).0 ≡ none
  unfolding assign_all
  assign_all-absent ordered [] peers q h = h
  assign_all-absent ordered (id ∷ ids) peers q h =
      assign_all-absent ordered ids (assign_one alive ordered peers id).0 q
        (assign_one-absent ordered peers id q h)

  cleared_absent :
      (peers : Peers) (q : PeerId)
      → lookup q (map_values (sweep_peer q clear_slot none) (erase q peers)) ≡ none
  cleared_absent peers q =
      lookup-map_values q (sweep_peer q clear_slot none) (erase q peers)
      ∙ ap (Option.map (sweep_peer q clear_slot none q))
          (lookup-erase q q peers ∙ ap (λ b. if b then none else lookup q peers) (str_eq_refl q))

  pub remove_peer-absent :
      (r : VoiceRouter) (q : PeerId)
      → r.closed ≡ false
      → lookup q (remove_peer alive r q).0.peers ≡ none
  unfolding remove_peer assign_after assign_available_locked
  remove_peer-absent r q running =
      if_cases (λ (step : VoiceRouter × List BindingNotice). lookup q step.0.peers ≡ none) r.closed
        _ _ (λ c. absurd cc) (λ c. assign_all-absent _ _ _ q (cleared_absent r.peers q))

  -- After remove_peer on a router that is open and whose bindings are valid, the router does
  -- not know the peer, and no remaining subscriber has a slot that is bound to it.
  pub remove_peer-unbound :
      (r : VoiceRouter) (q : PeerId)
      → IsValid r
      → r.closed ≡ false
      → let r' = (remove_peer alive r q).0 in
        (lookup q r'.peers ≡ none)
        × ((id : String) (peer : PeerState)
            → lookup id r'.peers ≡ some peer
            → count q peer.outputs ≡ 0)
  remove_peer-unbound r q w running =
      let gone = remove_peer-absent r q running in
      (
        gone,
        λ id peer e. elim (Bool-cases (count q peer.outputs == 0)) [
          | inl zero' ↦ ground arith
          | inr positive ↦
              absurd ((remove_peer-IsValid alive r q w id peer e).present q (ground arith) gone)
        ],
      )
