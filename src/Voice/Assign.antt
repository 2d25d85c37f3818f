-- ===== src/Voice/Assign.antt =====
-- `assign_available_locked`: free slots are given to publishers that are not heard yet.
use driscord.Common.{
  ℕ, Bool, false, not, ◌&&◌, ◌||◌, List, [], ◌∷◌, ◌++◌, Option, none, some, str_eq, if◌then◌else◌,
}
use driscord.Common.Assoc.{lookup, insert, contains}
use driscord.Signaling.{PeerId}
use driscord.Voice.{
  Track, OutputSlot, BindingNotice, Peers, VoiceRouter, is_live, bound, bind_first,
  ordered_peers_locked,
}

pub record Filled : Type 0 where
  pub outputs : List OutputSlot
  pub notices : List BindingNotice

module _ (alive : Track → Bool) where
  -- `publisher_id == subscriber_id || publisher.input.expired()`.
  unfoldable pub is_audible : Peers → PeerId → PeerId → Bool
  is_audible peers subscriber_id publisher_id =
      not (str_eq publisher_id subscriber_id) && elim (lookup publisher_id peers) as (λ _. Bool) [
        | none ↦ false
        | some peer ↦ is_live alive peer.input
      ]

  -- The inner loop, over the publishers that are left; `audible` is the test of `is_audible`.
  unfoldable pub fill :
      Option ℕ → (PeerId → Bool) → List PeerId → List PeerId → List OutputSlot → Filled
  fill send audible [] assigned outputs = record { outputs = outputs; notices = [] }
  fill send audible (publisher_id ∷ rest) assigned outputs =
      let skip = fill send audible rest assigned outputs in
      let bind : Filled = elim (bind_first alive send publisher_id outputs) [
        | none ↦ record { outputs = outputs; notices = [] }
        | some (outputs', notice) ↦
            let later = fill send audible rest (publisher_id ∷ assigned) outputs' in
            record { outputs = later.outputs; notices = notice ∷ later.notices }
      ] in
      if not (audible publisher_id) || contains assigned publisher_id then skip else bind

  -- One round of the outer loop.
  unfoldable pub assign_one : List PeerId → Peers → PeerId → Peers × List BindingNotice
  assign_one ordered peers subscriber_id = elim (lookup subscriber_id peers) [
    | none ↦ (peers, [])
    | some subscriber ↦
        let filled =
          fill subscriber.send_binding (is_audible peers subscriber_id) ordered
            (bound subscriber.outputs) subscriber.outputs in
        (
          insert subscriber_id (record subscriber { outputs = filled.outputs }) peers,
          filled.notices,
        )
  ]

  unfoldable pub assign_all : List PeerId → List PeerId → Peers → Peers × List BindingNotice
  assign_all ordered [] peers = (peers, [])
  assign_all ordered (subscriber_id ∷ rest) peers =
      let (peers', notices) = assign_one ordered peers subscriber_id in
      let (peers'', more) = assign_all ordered rest peers' in (peers'', notices ++ more)

  unfoldable pub assign_available_locked : VoiceRouter → VoiceRouter × List BindingNotice
  assign_available_locked r =
      let ordered = ordered_peers_locked r.peers in
      let (peers, notices) = assign_all ordered ordered r.peers in
      (record r { peers = peers }, notices)
