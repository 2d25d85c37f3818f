-- ===== src/Screen/Targets.antt =====
-- Where the packets of a publisher go (`collect_targets_locked` of
-- backend/signaling_server/src/screen_router.cpp).
use driscord.Common.{
  ◌<◌, ◌≡◌, subst, inl, inr, Bool, true, List, [], ◌∷◌, ◌++◌, Option, none, some, String, if_cases,
  length, arith, Option-cases, Bool-cases,
}
use driscord.Common.Assoc.{lookup}
use driscord.Signaling.{PeerId}
use driscord.Voice.{Track}
use driscord.Binding.Slots.{is_bound_to, count, All}
use driscord.Screen.{OutputTrack, OutputPair, PeerState, ScreenRouter, kind}
use driscord.Screen.Pairs.{is_video, output_of}
use driscord.Screen.Methods.{Target, ready_target, pair_targets}
use driscord.Screen.Regular.{IsFed, IsCarrying, IsCurrent, Allowed}
use driscord.Screen.Reach.{IsReached, IsReached-AreWell}

-- Each target has the source that its rewriter accepts.
abbrev pub AreCurrent : List Target → Type 0
AreCurrent [] = Unit {0}
AreCurrent (t ∷ ts) = (t.source_generation ≡ t.rewriter.generation) × AreCurrent ts

ready_target-AreCurrent :
    (o : Option OutputTrack) (rest : List Target)
    → IsFed o
    → AreCurrent rest
    → AreCurrent (ready_target o ++ rest)
ready_target-AreCurrent none rest h r = absurd h
ready_target-AreCurrent (some o) rest h r =
    if_cases (λ l. AreCurrent (l ++ rest)) o.ready _ _ (λ _. (h.0, r)) (λ _. r)

output_of-IsFed :
    (media_type : String) (pair : OutputPair) (p : PeerId)
    → pair.publisher ≡ some p
    → IsCurrent pair
    → IsFed (output_of media_type pair)
output_of-IsFed media_type pair p e h =
    let fed = subst (λ q. IsCarrying q pair.video pair.audio) e h in
    if_cases IsFed (is_video media_type) _ _ (λ _. fed.0) (λ _. fed.1)

module _ (alive : Track → Bool) (p : PeerId) (media_type : String) where
  pair_targets-AreCurrent :
      (pairs : List OutputPair)
      → All (kind alive) IsCurrent pairs
      → AreCurrent (pair_targets p media_type pairs)
  unfolding pair_targets
  pair_targets-AreCurrent [] h = tt
  pair_targets-AreCurrent (pair ∷ pairs) h =
      let rest = pair_targets-AreCurrent pairs h.1 in
      if_cases AreCurrent (is_bound_to (kind alive) p pair) _ _
        (λ carries. elim (Option-cases pair.publisher) [
          | inl e ↦ absurd (ground (arith, carries, e))
          | inr (q, e) ↦
              ready_target-AreCurrent (output_of media_type pair) _
                (output_of-IsFed media_type pair q e h.0) rest
        ])
        (λ _. rest)

  pair_targets-count :
      (pairs : List OutputPair)
      → 0 < length (pair_targets p media_type pairs)
      → 0 < count (kind alive) p pairs
  unfolding pair_targets count
  pair_targets-count [] h = h
  pair_targets-count (pair ∷ pairs) h = elim (Bool-cases (is_bound_to (kind alive) p pair)) [
    | inl carries ↦ ground (arith, carries)
    | inr other ↦ ground (arith, other, h, pair_targets-count pairs)
  ]

-- In every reached state of the screen router: if the packets of a publisher go to a subscriber
-- at all, that is another peer, which watches the publisher, and the publisher is in the router
-- and streams; and every target of them carries the source that its rewriter accepts.
pub pair_targets-Allowed :
    (r : ScreenRouter) (p id : PeerId) (media_type : String) (peer : PeerState)
    → IsReached r
    → lookup id r.peers ≡ some peer
    → AreCurrent (pair_targets p media_type peer.outputs)
      × (0 < length (pair_targets p media_type peer.outputs) → Allowed r.peers id peer p)
pair_targets-Allowed r p id media_type peer reached e =
    let alive : Track → Bool = λ t. true in
    let w = IsReached-AreWell r reached alive id peer e in
    (
      pair_targets-AreCurrent alive p media_type peer.outputs w.current,
      λ h. w.allowed p (pair_targets-count alive p media_type peer.outputs h),
    )
