-- ===== src/Screen/Changes.antt =====
-- Changes of the screen router's peers (backend/signaling_server/src/screen_router.cpp) that bind nobody.
use driscord.Common.{
  ◌<◌, ◌≤◌, ◌≡◌, ◌≢◌, refl, sym, ap, ◌∙◌, subst, Bool, true, List, [], some, str_eq, eq_iff,
  if◌then◌else◌, arith,
}
use driscord.Common.Assoc.{lookup, keys, contains, map_values}
use driscord.Signaling.{PeerId}
use driscord.Voice.{Track}
use driscord.Binding.Slots.{count, All}
use driscord.Binding.Bound.{IsBoundWell-shrink}
use driscord.Binding.Peers.{AllPeers, AllPeers-map_values}
use driscord.Binding.Sweep.{sweep, sweep-count_clear, sweep-All}
use driscord.Screen.{OutputPair, PeerState, BindingNotice, Peers, ScreenRouter, kind}
use driscord.Screen.Pairs.{release}
use driscord.Screen.Methods.{assign_after}
use driscord.Screen.Regular.{Allowed, IsCurrent}
use driscord.Screen.Restart.{release-IsCurrent}
use driscord.Screen.Valid.{IsWell, AreWell, assign_available_locked-AreWell}

module _ (alive : Track → Bool) where
  -- Peers among which those that stream do so still, but for one.
  abbrev pub Streams : Peers → Peers → (PeerId → Type 0) → Type 0
  Streams peers peers' Still =
      (q : PeerId) (old : PeerState)
      → Still q
      → lookup q peers ≡ some old
      → old.streaming ≡ true
      → (new : PeerState) × (lookup q peers' ≡ some new) × (new.streaming ≡ true)

  -- A peer after a change that binds nobody.
  pub changed-IsWell :
      (peers peers' : Peers) (Still : PeerId → Type 0) (id : PeerId) (peer peer' : PeerState)
      → Streams peers peers' Still
      → ((q : PeerId) → count (kind alive) q peer'.outputs ≤ count (kind alive) q peer.outputs)
      → ((q : PeerId) → 0 < count (kind alive) q peer'.outputs → Still q)
      → ((q : PeerId)
          → 0 < count (kind alive) q peer'.outputs
          → contains (keys peer.watched_publishers) q ≡ true
          → contains (keys peer'.watched_publishers) q ≡ true)
      → All (kind alive) IsCurrent peer'.outputs
      → IsWell alive peers id peer
      → IsWell alive peers' id peer'
  changed-IsWell peers peers' Still id peer peer' streams fewer still watched current =
      IsBoundWell-shrink (kind alive) Allowed IsCurrent peers peers' id peer peer' fewer
        (λ q h a.
          let (new, e, s) = streams q a.source (still q h) a.present a.streams in
          record {
            not_itself = a.not_itself;
            watched = watched q h a.watched;
            source = new;
            present = e;
            streams = s;
          })
        current

  abbrev pub ValidAfter : ScreenRouter × List BindingNotice → Type 0
  ValidAfter step = AreWell alive step.0.peers

  pub assign_after-AreWell :
      (step : ScreenRouter × List BindingNotice)
      → AreWell alive step.0.peers
      → AreWell alive (assign_after alive step).0.peers
  unfolding assign_after
  assign_after-AreWell (r, notices) w = assign_available_locked-AreWell alive r w

  -- Every pair that carries the publisher is released.
  released-count :
      (owner q : PeerId) (pairs : List OutputPair)
      → count (kind alive) q (sweep (kind alive) owner release (λ s. []) pairs).0
        ≡ (if str_eq owner q then 0 else count (kind alive) q pairs)
  released-count owner = sweep-count_clear (kind alive) owner release (λ s. []) (λ s. refl)

  released-IsCurrent :
      (owner : PeerId) (pairs : List OutputPair)
      → All (kind alive) IsCurrent pairs
      → All (kind alive) IsCurrent (sweep (kind alive) owner release (λ s. []) pairs).0
  released-IsCurrent owner =
      sweep-All (kind alive) owner release (λ s. []) IsCurrent (λ s e c. release-IsCurrent s)

  -- Every peer once the pairs that carry `gone` are released, where the others stream as before.
  pub released-AreWell :
      (gone : PeerId) (before peers : Peers) (f : PeerId → PeerState → PeerState)
      → Streams before (map_values f peers) (λ q. q ≢ gone)
      → ((id : PeerId) (peer : PeerState)
          → (f id peer).outputs ≡ (sweep (kind alive) gone release (λ s. []) peer.outputs).0)
      → ((id : PeerId) (peer : PeerState) (q : PeerId)
          → q ≢ gone
          → contains (keys peer.watched_publishers) q ≡ true
          → contains (keys (f id peer).watched_publishers) q ≡ true)
      → AllPeers (IsWell alive before) peers
      → AreWell alive (map_values f peers)
  released-AreWell gone before peers f streams outputs watched =
      AllPeers-map_values (IsWell alive before) (IsWell alive (map_values f peers)) peers f
        (λ id peer w.
          let counted : (q : PeerId)
              → count (kind alive) q (f id peer).outputs
                ≡ (if str_eq gone q then 0 else count (kind alive) q peer.outputs) =
            λ q. ap (count (kind alive) q) (outputs id peer) ∙ released-count gone q peer.outputs in
          let other : (q : PeerId) → 0 < count (kind alive) q (f id peer).outputs → q ≢ gone =
            λ q h same. ground (arith, counted q, eq_iff gone q, sym same) in
          changed-IsWell before (map_values f peers) (λ q. q ≢ gone) id peer (f id peer) streams
            (λ q. ground (arith, counted q)) other (λ q h. watched id peer q (other q h))
            (subst (All (kind alive) IsCurrent) (sym (outputs id peer))
              (released-IsCurrent gone peer.outputs w.current))
            w)
