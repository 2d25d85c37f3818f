-- ===== src/Binding/Bound.antt =====
-- When the bindings of a subscriber are valid.
use driscord.Common.{◌<◌, ◌≤◌}
use native.Mathlib.Nat.{le_trans}
use driscord.Common.Assoc.{Entries}
use driscord.Signaling.{PeerId}
use driscord.Binding.{Kind}
use driscord.Binding.Slots.{count, All}

module _ {Slot Peer Notice : Type 0} (K : Kind Slot Peer Notice)
    (Allowed : Entries Peer → PeerId → Peer → PeerId → Type 0) (Q : Slot → Type 0) where
  open K use {outputs}

  -- No publisher twice, only publishers that are allowed, and each slot as it should be.
  pub record IsBoundWell (peers : Entries Peer) (id : PeerId) (peer : Peer) : Type 0 where
    pub once : (q : PeerId) → count K q (outputs peer) ≤ 1
    pub allowed : (q : PeerId) → 0 < count K q (outputs peer) → Allowed peers id peer q
    pub current : All K Q (outputs peer)

  -- A change that binds nobody, and after which the publishers that are bound still are allowed.
  pub IsBoundWell-shrink :
      (peers peers' : Entries Peer) (id : PeerId) (peer peer' : Peer)
      → ((q : PeerId) → count K q (outputs peer') ≤ count K q (outputs peer))
      → ((q : PeerId)
          → 0 < count K q (outputs peer')
          → Allowed peers id peer q
          → Allowed peers' id peer' q)
      → All K Q (outputs peer')
      → IsBoundWell peers id peer
      → IsBoundWell peers' id peer'
  IsBoundWell-shrink peers peers' id peer peer' fewer keep current w = record {
    once = λ q. le_trans (fewer q) (w.once q);
    allowed = λ q h. keep q h (w.allowed q (le_trans h (fewer q)));
    current = current;
  }
