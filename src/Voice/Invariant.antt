-- ===== src/Voice/Invariant.antt =====
-- When the router's bindings (backend/signaling_server/src/voice_router.cpp) are valid, and
-- `assign_available_locked` on valid ones.
use driscord.Common.{
  ◌<◌, ◌≤◌, ◌≡◌, ◌∙◌, subst, inl, inr, Bool, true, false, List, [], ◌∷◌, String, str_eq_refl,
  Option-cases, Bool-cases, arith,
}
use driscord.Common.Assoc.{lookup, insert}
use driscord.Signaling.{PeerId}
use driscord.Voice.{Track, PeerState, Peers, VoiceRouter, bound, ordered_peers_locked}
use driscord.Voice.Slots.{count, contains-bound, AllCurrent}
use driscord.Binding.Peers.{AllPeers, IsPresent, IsPresent-insert, AllPeers-insert}
use driscord.Voice.Assign.{is_audible, fill, assign_one, assign_all, assign_available_locked}
use driscord.Voice.Fill.{fill-count_le, fill-count_inaudible, fill-AllCurrent}

-- A subscriber is bound to no publisher twice, never to itself, and to peers only; each bound slot
-- carries the generation that its rewriter accepts.
pub record IsBoundWell (peers : Peers) (id : String) (peer : PeerState) : Type 0 where
  pub once : (q : PeerId) → count q peer.outputs ≤ 1
  pub not_itself : count id peer.outputs ≡ 0
  pub present : (q : PeerId) → 0 < count q peer.outputs → IsPresent peers q
  pub current : AllCurrent peer.outputs

abbrev pub IsValid : VoiceRouter → Type 0
IsValid r = AllPeers (IsBoundWell r.peers) r.peers

pub IsBoundWell-weaken :
    (peers peers' : Peers)
    → ((q : PeerId) → IsPresent peers q → IsPresent peers' q)
    → (id : String) (peer : PeerState) → IsBoundWell peers id peer
    → IsBoundWell peers' id peer
IsBoundWell-weaken peers peers' more id peer w = record {
  once = w.once;
  not_itself = w.not_itself;
  present = λ q h. more q (w.present q h);
  current = w.current;
}

-- A peer's state is replaced by one whose outputs are bound well.
pub insert-IsBoundWell :
    (peers : Peers) (k : String) (v : PeerState)
    → IsBoundWell peers k v
    → AllPeers (IsBoundWell peers) peers
    → AllPeers (IsBoundWell (insert k v peers)) (insert k v peers)
insert-IsBoundWell peers k v new old =
    let wider = IsBoundWell-weaken peers (insert k v peers) (IsPresent-insert peers k v) in
    AllPeers-insert (IsBoundWell (insert k v peers)) peers k v (wider k v new)
      (λ id peer e. wider id peer (old id peer e))

module _ (alive : Track → Bool) where
  itself_inaudible : (peers : Peers) (id : String) → is_audible alive peers id id ≡ false
  unfolding is_audible
  itself_inaudible peers id = rw (str_eq_refl id)

  pub audible-IsPresent :
      (peers : Peers) (id q : String) → is_audible alive peers id q ≡ true → IsPresent peers q
  unfolding is_audible
  audible-IsPresent peers id q h n = ground arith

  filled-IsBoundWell :
      (ordered : List PeerId) (peers : Peers) (id : String) (peer : PeerState)
      → IsBoundWell peers id peer
      → IsBoundWell peers id (record peer {
        outputs =
            (fill alive peer.send_binding
              (is_audible alive peers id)
              ordered
              (bound peer.outputs)
              peer.outputs).outputs;
      })
  filled-IsBoundWell ordered peers id peer w =
      let audible = is_audible alive peers id in
      let given = bound peer.outputs in
      record {
        once = λ q.
            fill-count_le alive peer.send_binding audible q ordered given peer.outputs (w.once q)
              (contains-bound q peer.outputs);
        not_itself =
            fill-count_inaudible alive peer.send_binding audible id ordered given peer.outputs
              (itself_inaudible peers id)
            ∙ w.not_itself;
        present = λ q h. elim (Bool-cases (audible q)) [
          | inl yes' ↦ audible-IsPresent peers id q yes'
          | inr no' ↦
              let same =
                fill-count_inaudible alive peer.send_binding audible q ordered given peer.outputs
                  no' in
              w.present q (subst (λ n. 0 < n) same h)
        ];
        current =
            fill-AllCurrent alive peer.send_binding audible ordered given peer.outputs w.current;
      }

  assign_one-IsBoundWell :
      (ordered : List PeerId) (peers : Peers) (id : PeerId)
      → AllPeers (IsBoundWell peers) peers
      → let peers' = (assign_one alive ordered peers id).0 in AllPeers (IsBoundWell peers') peers'
  assign_one-IsBoundWell ordered peers id w = elim (Option-cases (lookup id peers)) [
    | inl e ↦ unfold assign_one in rw (e, assign_one) w
    | inr (peer, e) ↦
        unfold assign_one in
        rw (e, assign_one)
          (insert-IsBoundWell peers id _ (filled-IsBoundWell ordered peers id peer (w id peer e)) w)
  ]

  assign_all-IsBoundWell :
      (ordered ids : List PeerId) (peers : Peers)
      → AllPeers (IsBoundWell peers) peers
      → let peers' = (assign_all alive ordered ids peers).0 in AllPeers (IsBoundWell peers') peers'
  unfolding assign_all
  assign_all-IsBoundWell ordered [] peers w = w
  assign_all-IsBoundWell ordered (id ∷ ids) peers w =
      assign_all-IsBoundWell ordered ids (assign_one alive ordered peers id).0
        (assign_one-IsBoundWell ordered peers id w)

  pub assign_available_locked-IsValid :
      (r : VoiceRouter) → IsValid r → IsValid (assign_available_locked alive r).0
  unfolding assign_available_locked
  assign_available_locked-IsValid r w =
      let ordered = ordered_peers_locked r.peers in assign_all-IsBoundWell ordered ordered r.peers w
