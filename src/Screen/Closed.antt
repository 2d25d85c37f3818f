-- ===== src/Screen/Closed.antt =====
-- The screen router (backend/signaling_server/src/screen_router.cpp) once it is closed, and its count
-- of pairs.
use driscord.Common.{
  ℕ, ◌+◌, ◌≡◌, refl, Bool, true, not, ◌&&◌, ◌||◌, List, [], ◌∷◌, ◌++◌, Option, String, str_eq,
  if◌then◌else◌, if_cases, length, length-append, arith, Option-cases, inl, inr,
}
use driscord.Signaling.{PeerId}
use driscord.Voice.{Track, is_live}
use driscord.Voice.Register.{Direction, send_only, recv_only, send_recv, inactive, TrackInfo}
use driscord.Binding.{bound}
use driscord.Screen.{OutputPair, BindingNotice, Peers, ScreenRouter, kind}
use driscord.Screen.Methods.{
  register_input, register_output, register_track, set_streaming, set_watching, remove_peer, close,
  Stats, count_slots, count_peers, stats,
}

abbrev Refused : ScreenRouter → ScreenRouter × List BindingNotice → Type 0
Refused r step = step ≡ (r, [])

module _ (alive : Track → Bool) (r : ScreenRouter) (closed : r.closed ≡ true) where
  refuses :
      (rest : ScreenRouter × List BindingNotice) → Refused r (if r.closed then (r, []) else rest)
  refuses rest = if_cases (Refused r) r.closed _ _ (λ _. refl) (λ c. absurd cc)

  track-Refused :
      (owner : PeerId) (track : TrackInfo) (ssrc : ℕ) (token : String) (send : Option ℕ)
      → Refused r (register_track alive r owner track ssrc token send)
  unfolding register_track register_input register_output
  track-Refused owner track ssrc token send =
      if_cases (Refused r)
        (not (str_eq track.media_type "audio" || str_eq track.media_type "video")) _ _ (λ t. refl)
        (λ t. by_direction track.direction)
    where
      by_direction :
          (d : Direction)
          → Refused r (elim d as (λ _. ScreenRouter × List BindingNotice) [
            | recv_only ↦ register_input alive r owner track send
            | send_only ↦ register_output alive r owner track ssrc token send
            | send_recv ↦ (r, [])
            | inactive ↦ (r, [])
          ])
      by_direction recv_only = refuses _
      by_direction send_only = refuses _
      by_direction send_recv = refl
      by_direction inactive = refl

  streaming-Refused :
      (id : PeerId) (streaming : Bool) → Refused r (set_streaming alive r id streaming)
  unfolding set_streaming
  streaming-Refused id streaming = refuses _

  watching-Refused :
      (id q : PeerId) (watching : Bool) → Refused r (set_watching alive r id q watching)
  unfolding set_watching
  watching-Refused id q watching =
      if_cases (Refused r) (str_eq id q) _ _ (λ _. refl) (λ _. refuses _)

  removal-Refused : (id : PeerId) → Refused r (remove_peer alive r id)
  unfolding remove_peer
  removal-Refused id = refuses _

close-closed : (r : ScreenRouter) → (close r).closed ≡ true
unfolding close
close-closed r = if_cases (λ (s : ScreenRouter). s.closed ≡ true) r.closed _ _ (λ c. c) (λ c. refl)

-- After close, register_track, set_streaming, set_watching, remove_peer and close itself change
-- nothing in the screen router, and the first four publish no notice.
pub close-Refused :
    (alive : Track → Bool) (r : ScreenRouter) (id : PeerId)
    → let r' = close r in
      ((track : TrackInfo) (ssrc : ℕ) (token : String) (send : Option ℕ)
        → register_track alive r' id track ssrc token send ≡ (r', []))
      × ((streaming : Bool) → set_streaming alive r' id streaming ≡ (r', []))
      × ((q : PeerId) (watching : Bool) → set_watching alive r' id q watching ≡ (r', []))
      × (remove_peer alive r' id ≡ (r', []))
      × (close r' ≡ r')
unfolding close
close-Refused alive r id =
    let r' = close r in
    let closed = close-closed r in
    (
      track-Refused alive r' closed id,
      streaming-Refused alive r' closed id,
      watching-Refused alive r' closed id,
      removal-Refused alive r' closed id,
      if_cases (λ (s : ScreenRouter). s ≡ r') r'.closed _ _ (λ _. refl) (λ c. absurd cc),
    )

-- How many pairs the peers have, and how many peers the router would publish.
abbrev pub pairs_of : Peers → List OutputPair
pairs_of [] = []
pairs_of ((id, peer) ∷ peers) = peer.outputs ++ pairs_of peers

count_slots-bound :
    (alive : Track → Bool) (pairs : List OutputPair) (s : Stats)
    → (count_slots pairs s).bound_slots ≡ s.bound_slots + length (bound (kind alive) pairs)
unfolding count_slots bound
count_slots-bound alive [] s = omega arith
count_slots-bound alive (pair ∷ pairs) s = elim (Option-cases pair.publisher) [
  | inl e ↦
      let rest = count_slots-bound alive pairs (record s { free_slots = s.free_slots + 1 }) in
      rw e (omega (arith, rest))
  | inr (p, e) ↦
      let rest = count_slots-bound alive pairs (record s { bound_slots = s.bound_slots + 1 }) in
      rw e (omega (arith, rest))
]

count_slots-total :
    (pairs : List OutputPair) (s : Stats)
    → (count_slots pairs s).bound_slots + (count_slots pairs s).free_slots
      ≡ s.bound_slots + s.free_slots + length pairs
unfolding count_slots
count_slots-total [] s = omega arith
count_slots-total (pair ∷ pairs) s = elim (Option-cases pair.publisher) [
  | inl e ↦
      let rest = count_slots-total pairs (record s { free_slots = s.free_slots + 1 }) in
      rw e (omega (arith, rest))
  | inr (p, e) ↦
      let rest = count_slots-total pairs (record s { bound_slots = s.bound_slots + 1 }) in
      rw e (omega (arith, rest))
]

length-bound_append :
    (alive : Track → Bool) (ss ts : List OutputPair)
    → length (bound (kind alive) (ss ++ ts))
      ≡ length (bound (kind alive) ss) + length (bound (kind alive) ts)
unfolding bound
length-bound_append alive [] ts = omega arith
length-bound_append alive (s ∷ ss) ts = elim (Option-cases s.publisher) [
  | inl e ↦ rw e (length-bound_append alive ss ts)
  | inr (p, e) ↦ rw e (omega (arith, length-bound_append alive ss ts))
]

count_peers-total :
    (alive : Track → Bool) (peers : Peers) (s : Stats)
    → let s' = count_peers alive peers s in
      (s'.bound_slots ≡ s.bound_slots + length (bound (kind alive) (pairs_of peers)))
      × (s'.bound_slots + s'.free_slots ≡ s.bound_slots + s.free_slots + length (pairs_of peers))
unfolding count_peers bound
count_peers-total alive [] s = (omega arith, omega arith)
count_peers-total alive ((id, peer) ∷ peers) s =
    let publishes = peer.streaming && is_live alive peer.input_video in
    let counted = record s { streaming_publishers = s.streaming_publishers + 1 } in
    let s1 = if publishes then counted else s in
    let here = count_slots peer.outputs s1 in
    let rest = count_peers-total alive peers here in
    let same : (s1.bound_slots ≡ s.bound_slots) × (s1.free_slots ≡ s.free_slots) =
      if_cases (λ (x : Stats). (x.bound_slots ≡ s.bound_slots) × (x.free_slots ≡ s.free_slots))
        publishes counted s (λ _. (refl, refl)) (λ _. (refl, refl)) in
    (
      omega (
        arith,
        rest.0,
        count_slots-bound alive peer.outputs s1,
        length-bound_append alive peer.outputs (pairs_of peers),
        same.0,
      ),
      omega (
        arith,
        rest.1,
        count_slots-total peer.outputs s1,
        length-append peer.outputs (pairs_of peers),
        same.0,
        same.1,
      ),
    )

-- The bound_slots that stats counts are as many as the pairs of all peers that carry a
-- publisher, and with the free_slots they are all pairs.
pub stats-total :
    (alive : Track → Bool) (r : ScreenRouter)
    → let s = stats alive r in
      (s.bound_slots ≡ length (bound (kind alive) (pairs_of r.peers)))
      × (s.bound_slots + s.free_slots ≡ length (pairs_of r.peers))
unfolding stats
stats-total alive r =
    let total =
      count_peers-total alive r.peers
        record { streaming_publishers = 0; bound_slots = 0; free_slots = 0 } in
    (omega (arith, total.0), omega (arith, total.1))
