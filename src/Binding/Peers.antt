-- ===== src/Binding/Peers.antt =====
-- Properties of every peer, under the changes that a router makes to its map.
use driscord.Common.{
  ◌≡◌, ◌≢◌, subst, none, some, String, str_eq, eq_iff, Option-cases, Bool-cases, inl, inr, arith,
}
use driscord.Common.Assoc.{
  Entries, lookup, insert, erase, map_values, lookup-insert, lookup-erase, lookup-map_values,
}

module _ {Peer : Type 0} where
  abbrev pub AllPeers : (String → Peer → Type 0) → Entries Peer → Type 0
  AllPeers P peers = (id : String) (peer : Peer) → lookup id peers ≡ some peer → P id peer

  abbrev pub IsPresent : Entries Peer → String → Type 0
  IsPresent peers id = lookup id peers ≢ none

  pub IsPresent-some :
      (peers : Entries Peer) (id : String) (peer : Peer)
      → lookup id peers ≡ some peer
      → IsPresent peers id
  IsPresent-some peers id peer e n = cc

  pub IsPresent-insert :
      (peers : Entries Peer) (k : String) (v : Peer) (id : String)
      → IsPresent peers id
      → IsPresent (insert k v peers) id
  IsPresent-insert peers k v id h n = h (ground (arith, lookup-insert k id v peers))

  pub IsPresent-map_values :
      (peers : Entries Peer) (f : String → Peer → Peer) (id : String)
      → IsPresent peers id
      → IsPresent (map_values f peers) id
  IsPresent-map_values peers f id h n = h (ground (arith, lookup-map_values id f peers))

  module _ (P : String → Peer → Type 0) where
    pub AllPeers-insert :
        (peers : Entries Peer) (k : String) (v : Peer)
        → P k v
        → AllPeers P peers
        → AllPeers P (insert k v peers)
    AllPeers-insert peers k v new old id peer e = elim (Bool-cases (str_eq k id)) [
      | inl same ↦
          let key : k ≡ id = (eq_iff k id).0 same in
          let v_eq : v ≡ peer = ground (arith, lookup-insert k id v peers) in
          subst (λ x. P x peer) key (subst (P k) v_eq new)
      | inr other ↦ old id peer (ground (arith, lookup-insert k id v peers))
    ]

    pub AllPeers-erase :
        (peers : Entries Peer) (k : String) → AllPeers P peers → AllPeers P (erase k peers)
    AllPeers-erase peers k old id peer e = old id peer (ground (arith, lookup-erase k id peers))

    pub AllPeers-map_values :
        (Q : String → Peer → Type 0) (peers : Entries Peer) (f : String → Peer → Peer)
        → ((id : String) (peer : Peer) → P id peer → Q id (f id peer))
        → AllPeers P peers
        → AllPeers Q (map_values f peers)
    AllPeers-map_values Q peers f step old id peer e = elim (Option-cases (lookup id peers)) [
      | inl n ↦ absurd (ground (arith, lookup-map_values id f peers))
      | inr (before, b) ↦
          subst (Q id) (ground (arith, lookup-map_values id f peers))
            (step id before (old id before b))
    ]
