-- ===== src/Binding/Sweep.antt =====
-- The loops over a subscriber's outputs that change those that carry one publisher.
use driscord.Common.{
  ◌≡◌, refl, inl, inr, true, List, [], ◌∷◌, ◌++◌, none, str_eq, eq_iff, if◌then◌else◌, if_cases,
  arith, Option-cases,
}
use driscord.Common.Assoc.{Entries}
use driscord.Signaling.{PeerId}
use driscord.Binding.{Kind}
use driscord.Binding.Slots.{is_bound_to, count, All}

module _ {Slot Peer Notice : Type 0} (K : Kind Slot Peer Notice) where
  open K use {publisher, outputs, with_outputs}

  -- The outputs after the loop, and the notices in their order; `told` are a changed slot's.
  unfoldable pub sweep :
      PeerId → (Slot → Slot) → (Slot → List Notice) → List Slot → List Slot × List Notice
  sweep owner change told [] = ([], [])
  sweep owner change told (slot ∷ slots) =
      let (slots', notices) = sweep owner change told slots in
      if is_bound_to K owner slot
      then (change slot ∷ slots', told slot ++ notices)
      else (slot ∷ slots', notices)

  -- The same over every peer.
  abbrev pub sweep_peer : PeerId → (Slot → Slot) → PeerId → Peer → Peer
  sweep_peer owner change id peer =
      with_outputs peer (sweep owner change (λ slot. []) (outputs peer)).0

  unfoldable pub sweep_notices :
      PeerId → (Slot → Slot) → (Peer → Slot → List Notice) → Entries Peer → List Notice
  sweep_notices owner change told [] = []
  sweep_notices owner change told ((id, peer) ∷ peers) =
      (sweep owner change (told peer) (outputs peer)).1 ++ sweep_notices owner change told peers

  module _ (owner : PeerId) (change : Slot → Slot) (told : Slot → List Notice) where
    -- A change that keeps the publisher.
    pub sweep-count_keep :
        ((slot : Slot) → publisher (change slot) ≡ publisher slot)
        → (q : PeerId) (slots : List Slot)
        → count K q (sweep owner change told slots).0 ≡ count K q slots
    unfolding count sweep
    sweep-count_keep kept q [] = refl
    sweep-count_keep kept q (slot ∷ slots) =
        ground (arith, sweep-count_keep kept q slots, kept slot)

    -- A change that takes the publisher away.
    pub sweep-count_clear :
        ((slot : Slot) → publisher (change slot) ≡ none)
        → (q : PeerId) (slots : List Slot)
        → count K q (sweep owner change told slots).0
          ≡ (if str_eq owner q then 0 else count K q slots)
    unfolding count sweep
    sweep-count_clear cleared q [] = ground arith
    sweep-count_clear cleared q (slot ∷ slots) = elim (Option-cases (publisher slot)) [
      | inl e ↦ ground (arith, sweep-count_clear cleared q slots)
      | inr (p, e) ↦ ground (
        arith,
        sweep-count_clear cleared q slots,
        cleared slot,
        eq_iff owner q,
        eq_iff p q,
        eq_iff p owner,
      )
    ]

    pub sweep-All :
        (Q : Slot → Type 0)
        → ((slot : Slot) → is_bound_to K owner slot ≡ true → Q slot → Q (change slot))
        → (slots : List Slot) → All K Q slots
        → All K Q (sweep owner change told slots).0
    unfolding sweep
    sweep-All Q h [] a = tt
    sweep-All Q h (slot ∷ slots) a =
        let rest = sweep-All Q h slots a.1 in
        if_cases (λ (r : List Slot × List Notice). All K Q r.0) (is_bound_to K owner slot) _ _
          (λ e. (h slot e a.0, rest)) (λ e. (a.0, rest))
