-- ===== src/Screen/Removal.antt =====
-- The screen router after `remove_peer` (backend/signaling_server/src/screen_router.cpp).
use driscord.Common.{
  ◌==◌, ◌≡◌, sym, ap, ◌∙◌, inl, inr, Bool, false, List, none, some, str_eq_refl, Option-cases,
  Bool-cases, if_cases, arith,
}
use mathlib.Core.Option
use driscord.Common.Assoc.{
  lookup, erase, keys, contains, map_values, lookup-erase, lookup-map_values, contains-keys-erase,
}
use driscord.Signaling.{PeerId}
use driscord.Voice.{Track}
use driscord.Binding.Slots.{count}
use driscord.Screen.{PeerState, BindingNotice, Peers, ScreenRouter, kind}
use driscord.Screen.Methods.{assign_after, forget, remove_peer}
use driscord.Screen.Valid.{AreWell}
use driscord.Screen.Reach.{remove_peer-AreWell}
use driscord.Screen.Effects.{after_present, after_absent}

module _ (alive : Track → Bool) where
  -- The peers before the assignment that ends `remove_peer`.
  remaining : ScreenRouter → PeerId → Peers
  remaining r gone = map_values (forget alive gone) (erase gone r.peers)

  remaining-absent : (r : ScreenRouter) (gone : PeerId) → lookup gone (remaining r gone) ≡ none
  unfolding remaining
  remaining-absent r gone = ground (
    arith,
    lookup-map_values gone (forget alive gone) (erase gone r.peers),
    lookup-erase gone gone r.peers,
    str_eq_refl gone,
  )

  remaining-unwatched :
      (r : ScreenRouter) (gone id : PeerId) (peer : PeerState)
      → lookup id (remaining r gone) ≡ some peer
      → contains (keys peer.watched_publishers) gone ≡ false
  unfolding remaining
  remaining-unwatched r gone id peer e = elim (Option-cases (lookup id (erase gone r.peers))) [
    | inl n ↦ absurd (ground (arith, lookup-map_values id (forget alive gone) (erase gone r.peers)))
    | inr (before, b) ↦
        let same : some (forget alive gone id before) ≡ some peer =
          sym (
            lookup-map_values id (forget alive gone) (erase gone r.peers)
            ∙ ap (Option.map (forget alive gone id)) b)
          ∙ e in
        let flag =
          ap (Option.map (λ (x : PeerState). contains (keys x.watched_publishers) gone)) same in
        ground
          (arith, flag, contains-keys-erase gone gone before.watched_publishers, str_eq_refl gone)
  ]

  -- Nobody knows or watches the peer.
  abbrev IsGone : PeerId → ScreenRouter × List BindingNotice → Type 0
  IsGone q step =
      (lookup q step.0.peers ≡ none)
      × ((id : PeerId) (peer : PeerState)
          → lookup id step.0.peers ≡ some peer
          → contains (keys peer.watched_publishers) q ≡ false)

  IsGone-after :
      (q : PeerId) (step : ScreenRouter × List BindingNotice)
      → IsGone q step
      → IsGone q (assign_after alive step)
  IsGone-after q step (absent, unwatched) = (
    after_absent alive step q absent,
    λ id peer e. elim (Option-cases (lookup id step.0.peers)) [
      | inl n ↦ absurd (ground (arith, after_absent alive step id n))
      | inr (before, b) ↦
          let (after, e', alike) = after_present alive step id before b in
          let same = ap (Option.map (λ (x : PeerState). x.watched_publishers)) (sym e' ∙ e) in
          let kept : after.watched_publishers ≡ peer.watched_publishers = ground (arith, same) in
          ap (λ m. contains (keys m) q) (sym (alike.watched ∙ kept)) ∙ unwatched id before b
    ],
  )

  remove_peer-IsGone :
      (r : ScreenRouter) (q : PeerId) → r.closed ≡ false → IsGone q (remove_peer alive r q)
  unfolding remove_peer remaining
  remove_peer-IsGone r q running =
      if_cases (IsGone q) r.closed _ _ (λ c. absurd cc)
        (λ _. IsGone-after q _ (remaining-absent r q, remaining-unwatched r q))

  -- After remove_peer on a screen router that is open and whose bindings are valid, the router
  -- does not know the peer, and no remaining subscriber carries it in a pair or watches it.
  pub remove_peer-forgotten :
      (r : ScreenRouter) (q : PeerId)
      → AreWell alive r.peers
      → r.closed ≡ false
      → let r' = (remove_peer alive r q).0 in
        (lookup q r'.peers ≡ none)
        × ((id : PeerId) (peer : PeerState)
            → lookup id r'.peers ≡ some peer
            → (count (kind alive) q peer.outputs ≡ 0)
              × (contains (keys peer.watched_publishers) q ≡ false))
  remove_peer-forgotten r q w running =
      let (absent, unwatched) = remove_peer-IsGone r q running in
      (
        absent,
        λ id peer e. (
          elim (Bool-cases (count (kind alive) q peer.outputs == 0)) [
            | inl none_bound ↦ ground arith
            | inr positive ↦
                let a = (remove_peer-AreWell alive r q w id peer e).allowed q (ground arith) in
                absurd (ground (arith, absent, a.present))
          ],
          unwatched id peer e,
        ),
      )
