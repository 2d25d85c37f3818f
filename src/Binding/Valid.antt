-- ===== src/Binding/Valid.antt =====
-- When the bindings of every subscriber are valid, and the assignment on valid ones.
use driscord.Common.{◌<◌, ◌≤◌, ◌≡◌, sym, subst, inl, inr, true, List, [], ◌∷◌, some, Option-cases}
use driscord.Common.Assoc.{Entries, lookup, contains}
use driscord.Signaling.{PeerId}
use driscord.Binding.{Kind, bound, fill, assign_one, assign_all}
use driscord.Binding.Slots.{count, All, contains-bound}
use driscord.Binding.Bound.{IsBoundWell}
use driscord.Binding.Fill.{fill-All, fill-count_le, fill-count_new}
use driscord.Binding.Peers.{AllPeers, AllPeers-insert}
use driscord.Binding.Rounds.{
  Related, IsRegular, Related-Alike, filled, filled-Later, assign_one-Related, assign_one-some,
  assign_one-absent,
}

module _ {Slot Peer Notice : Type 0} (K : Kind Slot Peer Notice) (Same : Slot → Slot → Type 0)
    (Alike : Peer → Peer → Type 0) (regular : IsRegular K Same Alike)
    (Allowed : Entries Peer → PeerId → Peer → PeerId → Type 0) (Q : Slot → Type 0) where
  open K use {is_free, take_slot, outputs, candidates, is_available}

  -- `Q` is what a slot promises, and `Allowed` says whom a subscriber may be bound to.
  pub record IsGuarded : Type 0 where
    pub fits : (p : PeerId) (s : Slot) → is_free s ≡ true → Q (take_slot p s)
    pub admits :
        (peers : Entries Peer) (id : PeerId) (peer : Peer) (q : PeerId)
        → is_available peers id q ≡ true
        → contains (candidates peers peer) q ≡ true
        → Allowed peers id peer q
    pub stable :
        (peers peers' : Entries Peer) (id : PeerId) (peer peer' : Peer) (q : PeerId)
        → Related Alike peers peers'
        → Alike peer peer'
        → Allowed peers id peer q
        → Allowed peers' id peer' q

  module _ (guarded : IsGuarded) where
    pub IsBoundWell-Related :
        (peers peers' : Entries Peer)
        → Related Alike peers peers'
        → (id : PeerId) (peer : Peer) → IsBoundWell K Allowed Q peers id peer
        → IsBoundWell K Allowed Q peers' id peer
    IsBoundWell-Related peers peers' r id peer w = record {
      once = w.once;
      allowed = λ q h.
          guarded.stable peers peers' id peer peer q r (regular.alike_refl peer) (w.allowed q h);
      current = w.current;
    }

    Related-self : (peers : Entries Peer) → Related Alike peers peers
    Related-self peers = record {
      absent = λ id e. e;
      present = λ id p e. (p, e, regular.alike_refl p);
    }

    filled_outputs :
        (peers : Entries Peer) (id : PeerId) (peer : Peer) (P : List Slot → Type 0)
        → P
            (fill K
              (is_available peers id)
              (K.notify peers peer)
              (candidates peers peer)
              (bound K (outputs peer))
              (outputs peer)).0
        → P (outputs (filled K Same Alike regular peers id peer))
    unfolding filled
    filled_outputs peers id peer P h = subst P (sym (regular.outputs_with peer _)) h

    filled-IsBoundWell :
        (peers : Entries Peer) (id : PeerId) (peer : Peer)
        → IsBoundWell K Allowed Q peers id peer
        → IsBoundWell K Allowed Q peers id (filled K Same Alike regular peers id peer)
    filled-IsBoundWell peers id peer w =
        let may = is_available peers id in
        let tell = K.notify peers peer in
        let order = candidates peers peer in
        let given = bound K (outputs peer) in
        let now = filled K Same Alike regular peers id peer in
        let keep : (q : PeerId) → Allowed peers id peer q → Allowed peers id now q = λ q.
          guarded.stable peers peers id peer now q (Related-self peers)
            (filled-Later K Same Alike regular peers id peer).0 in
        record {
          once = λ q.
              filled_outputs peers id peer (λ ss. count K q ss ≤ 1)
                (fill-count_le K may tell regular.sound q order given (outputs peer) (w.once q)
                  (contains-bound K q (outputs peer)));
          allowed = λ q.
              filled_outputs peers id peer (λ ss. 0 < count K q ss → Allowed peers id now q)
                (λ h.
                  elim (fill-count_new K may tell regular.sound q order given (outputs peer) h) [
                    | inl old ↦ keep q (w.allowed q old)
                    | inr (free, wanted) ↦ keep q (guarded.admits peers id peer q free wanted)
                  ]);
          current =
              filled_outputs peers id peer (All K Q)
                (fill-All K may tell Q guarded.fits order given (outputs peer) w.current);
        }

    assign_one-IsBoundWell :
        (peers : Entries Peer) (id : PeerId)
        → AllPeers (IsBoundWell K Allowed Q peers) peers
        → let peers' = (assign_one K peers id).0 in AllPeers (IsBoundWell K Allowed Q peers') peers'
    assign_one-IsBoundWell peers id w = elim (Option-cases (lookup id peers)) [
      | inl e ↦
          subst (λ ps. AllPeers (IsBoundWell K Allowed Q ps) ps)
            (sym (assign_one-absent K Same Alike regular peers id e)) w
      | inr (peer, e) ↦
          let peers' = (assign_one K peers id).0 in
          let wider = IsBoundWell-Related peers peers' (
            Related-Alike K Same Alike regular peers peers'
              (assign_one-Related K Same Alike regular peers id)) in
          let now = filled-IsBoundWell peers id peer (w id peer e) in
          λ q after f. wider q after (
            AllPeers-insert (IsBoundWell K Allowed Q peers) peers id _ now w q after (
              subst (λ ps. lookup q ps ≡ some after)
                (assign_one-some K Same Alike regular peers id peer e) f))
    ]

    pub assign_all-IsBoundWell :
        (ids : List PeerId) (peers : Entries Peer)
        → AllPeers (IsBoundWell K Allowed Q peers) peers
        → let peers' = (assign_all K ids peers).0 in
          AllPeers (IsBoundWell K Allowed Q peers') peers'
    unfolding assign_all
    assign_all-IsBoundWell [] peers w = w
    assign_all-IsBoundWell (id ∷ ids) peers w =
        assign_all-IsBoundWell ids (assign_one K peers id).0 (assign_one-IsBoundWell peers id w)
