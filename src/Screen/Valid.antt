-- ===== src/Screen/Valid.antt =====
-- When the screen router's bindings (backend/signaling_server/src/screen_router.cpp) are valid, and
-- the changes of its map of peers.
use driscord.Common.{
  ◌<◌, ◌≤◌, ◌≡◌, refl, sym, ◌∙◌, subst, inl, inr, Bool, true, List, [], ◌∷◌, some, String, str_eq,
  str_eq_refl, eq_iff, Option-cases, Bool-cases, if_false, arith,
}
use native.Mathlib.Nat.{le_refl}
use driscord.Common.Assoc.{lookup, insert, lookup-insert}
use driscord.Signaling.{PeerId}
use driscord.Voice.{Track}
use driscord.Binding.Slots.{count, All}
use driscord.Binding.Bound.{IsBoundWell, IsBoundWell-shrink}
use driscord.Binding.Peers.{AllPeers, AllPeers-insert}
use driscord.Binding.Valid.{assign_all-IsBoundWell}
use driscord.Screen.{
  OutputPair, PeerState, Peers, ScreenRouter, kind, new_peer, peer_for_locked, ordered_peers_locked,
  assign_available_locked,
}
use driscord.Screen.Regular.{Same, Alike, Allowed, IsCurrent, kind-IsRegular, kind-IsGuarded}

-- Which tracks exist does not matter to whom a pair is bound.
module _ (a b : Track → Bool) where
  count_alive :
      (q : PeerId) (pairs : List OutputPair) → count (kind a) q pairs ≡ count (kind b) q pairs
  unfolding count
  count_alive q [] = refl
  count_alive q (pair ∷ pairs) = ground (arith, count_alive q pairs)

  All-alive :
      (pairs : List OutputPair) → All (kind a) IsCurrent pairs → All (kind b) IsCurrent pairs
  All-alive [] h = h
  All-alive (pair ∷ pairs) h = (h.0, All-alive pairs h.1)

-- A subscriber is bound to no publisher twice, and to other peers only, which it watches and which
-- stream; a pair that carries one has both outputs, ready and with the sources that their rewriters
-- accept, and a pair that carries nobody has no source.
abbrev pub IsWell : (Track → Bool) → Peers → PeerId → PeerState → Type 0
IsWell alive = IsBoundWell (kind alive) Allowed IsCurrent

abbrev pub AreWell : (Track → Bool) → Peers → Type 0
AreWell alive peers = AllPeers (IsWell alive peers) peers

pub AreWell-alive : (a b : Track → Bool) (peers : Peers) → AreWell a peers → AreWell b peers
AreWell-alive a b peers w id peer e =
    let here = w id peer e in
    record {
      once = λ q. subst (λ n. n ≤ 1) (count_alive a b q peer.outputs) (here.once q);
      allowed = λ q h. here.allowed q (subst (λ n. 0 < n) (count_alive b a q peer.outputs) h);
      current = All-alive a b peer.outputs here.current;
    }

-- A peer may be bound to the same publishers once another's state has changed, if that streams still.
pub Allowed-insert :
    (peers : Peers) (k : String) (v : PeerState)
    → ((old : PeerState) → lookup k peers ≡ some old → old.streaming ≡ true → v.streaming ≡ true)
    → (id : String) (peer : PeerState) (q : PeerId) → Allowed peers id peer q
    → Allowed (insert k v peers) id peer q
Allowed-insert peers k v streams id peer q a = elim (Bool-cases (str_eq k q)) [
  | inl same ↦
      let here =
        subst (λ x. lookup x peers ≡ some a.source) (sym ((eq_iff k q).0 same)) a.present in
      record {
        not_itself = a.not_itself;
        watched = a.watched;
        source = v;
        present = ground (arith, lookup-insert k q v peers);
        streams = streams a.source here a.streams;
      }
  | inr other ↦ record {
    not_itself = a.not_itself;
    watched = a.watched;
    source = a.source;
    present =
        lookup-insert k q v peers
        ∙ sym (if_false (str_eq k q) (some v) (lookup q peers) other)
        ∙ a.present;
    streams = a.streams;
  }
]

module _ (alive : Track → Bool) where
  pub new_peer-IsWell :
      (peers : Peers) (id : String) (order : _) → IsWell alive peers id (new_peer order)
  unfolding count
  new_peer-IsWell peers id order = record {
    once = λ q. omega arith;
    allowed = λ q h. absurd (omega arith);
    current = tt;
  }

  -- A change that leaves the outputs, the watches and whatever else the bindings depend on.
  pub insert-AreWell :
      (peers : Peers) (k : String) (v : PeerState)
      → ((old : PeerState) → lookup k peers ≡ some old → old.streaming ≡ true → v.streaming ≡ true)
      → IsWell alive peers k v
      → AreWell alive peers
      → AreWell alive (insert k v peers)
  insert-AreWell peers k v streams new old =
      let wider : (id : String) (peer : PeerState)
          → IsWell alive peers id peer
          → IsWell alive (insert k v peers) id peer =
        λ id peer w.
          IsBoundWell-shrink (kind alive) Allowed IsCurrent peers (insert k v peers) id peer peer
            (λ q. le_refl _) (λ q h. Allowed-insert peers k v streams id peer q) w.current w in
      AllPeers-insert (IsWell alive (insert k v peers)) peers k v (wider k v new)
        (λ id peer e. wider id peer (old id peer e))

  pub peer_for_locked-AreWell :
      (r : ScreenRouter) (id : PeerId)
      → AreWell alive r.peers
      → let (peer, r1) = peer_for_locked r id in
        (lookup id r1.peers ≡ some peer) × IsWell alive r1.peers id peer × AreWell alive r1.peers
  unfolding peer_for_locked
  peer_for_locked-AreWell r id w = elim (Option-cases (lookup id r.peers)) [
    | inl e ↦
        let fresh = new_peer r.next_peer_order in
        let well =
          insert-AreWell r.peers id fresh (λ old f _. absurd (ground arith))
            (new_peer-IsWell r.peers id r.next_peer_order) w in
        let here : lookup id (insert id fresh r.peers) ≡ some fresh =
          ground (arith, lookup-insert id id fresh r.peers, str_eq_refl id) in
        rw (e, peer_for_locked) (here, well id fresh here, well)
    | inr (peer, e) ↦ rw (e, peer_for_locked) (e, w id peer e, w)
  ]

  pub assign_available_locked-AreWell :
      (r : ScreenRouter)
      → AreWell alive r.peers
      → AreWell alive (assign_available_locked alive r).0.peers
  unfolding assign_available_locked
  assign_available_locked-AreWell r w =
      assign_all-IsBoundWell (kind alive) Same Alike (kind-IsRegular alive) Allowed IsCurrent
        (kind-IsGuarded alive) (ordered_peers_locked r.peers) r.peers w
