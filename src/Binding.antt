-- ===== src/Binding.antt =====
-- What the screen router's assignment of publishers to slots does, over any kind of slot: the loops
-- of `assign_available_locked` (backend/signaling_server/src/screen_router.cpp).
pub mod Peers
pub mod Slots
pub mod Fill
pub mod Rounds
pub mod Valid
pub mod Sweep
pub mod Put
pub mod Bound
use driscord.Common.{
  Bool, true, false, not, ◌||◌, List, [], ◌∷◌, ◌++◌, Option, none, some, String, ◌≡◌, if◌then◌else◌,
}
use driscord.Common.Assoc.{Entries, lookup, insert, contains}
use driscord.Signaling.{PeerId}

-- A router's slots and peers: which slot is free, how one is taken and who is told, which publishers
-- a subscriber wants, in which order, and which of them it may have.
pub record Kind (Slot Peer Notice : Type 0) : Type 0 where
  pub publisher : Slot → Option PeerId
  pub is_free : Slot → Bool
  pub take_slot : PeerId → Slot → Slot
  pub notify : Entries Peer → Peer → PeerId → Slot → List Notice
  pub outputs : Peer → List Slot
  pub with_outputs : Peer → List Slot → Peer
  pub candidates : Entries Peer → Peer → List PeerId
  pub is_available : Entries Peer → PeerId → PeerId → Bool

module _ {Slot Peer Notice : Type 0} (K : Kind Slot Peer Notice) where
  open K use {
    publisher, is_free, take_slot, notify, outputs, with_outputs, candidates, is_available,
  }

  -- The publishers of the slots that are taken.
  unfoldable pub bound : List Slot → List PeerId
  bound [] = []
  bound (slot ∷ slots) = elim (publisher slot) [ none ↦ bound slots | some p ↦ p ∷ bound slots ]

  -- The slots with the first free one taken, and the slot; `none` if there is no free slot.
  unfoldable pub bind_first : PeerId → List Slot → Option (List Slot × Slot)
  bind_first p [] = none
  bind_first p (slot ∷ slots) =
      let rest : Option (List Slot × Slot) = elim (bind_first p slots) [
        | none ↦ none
        | some (slots', taken) ↦ some (slot ∷ slots', taken)
      ] in
      if is_free slot then some (take_slot p slot ∷ slots, take_slot p slot) else rest

  -- The inner loop, over the publishers that are left; `may` is the test of `is_available`.
  unfoldable pub fill :
      (PeerId → Bool)
      → (PeerId → Slot → List Notice)
      → List PeerId
      → List PeerId
      → List Slot
      → List Slot × List Notice
  fill may tell [] assigned slots = (slots, [])
  fill may tell (p ∷ rest) assigned slots =
      let skip = fill may tell rest assigned slots in
      let bind : List Slot × List Notice = elim (bind_first p slots) [
        | none ↦ (slots, [])
        | some (slots', taken) ↦
            let (later, notices) = fill may tell rest (p ∷ assigned) slots' in
            (later, tell p taken ++ notices)
      ] in
      if not (may p) || contains assigned p then skip else bind

  -- One round of the outer loop.
  unfoldable pub assign_one : Entries Peer → PeerId → Entries Peer × List Notice
  assign_one peers id = elim (lookup id peers) [
    | none ↦ (peers, [])
    | some peer ↦
        let (slots, notices) =
          fill (is_available peers id) (notify peers peer) (candidates peers peer)
            (bound (outputs peer)) (outputs peer) in
        (insert id (with_outputs peer slots) peers, notices)
  ]

  unfoldable pub assign_all : List PeerId → Entries Peer → Entries Peer × List Notice
  assign_all [] peers = (peers, [])
  assign_all (id ∷ rest) peers =
      let (peers', notices) = assign_one peers id in
      let (peers'', more) = assign_all rest peers' in (peers'', notices ++ more)
