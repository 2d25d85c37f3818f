-- ===== src/Media/Link/Order.antt =====
-- The order of departures, and the bound of the queue.
use driscord.Common.{
  subst, ℕ, ◌+◌, ◌<◌, ◌≤◌, ◌≡◌, ◌≢◌, ◌↔◌, true, false, List, [], ◌∷◌, Option, none, some, arith,
  Option-cases, inl, inr,
}
use native.Mathlib.Nat.{le_trans}
use driscord.Media.{LinkModelState}
use driscord.Media.Link.{
  LinkModelConfig, LinkScheduleResult, enabled, serialization_us, departure_of,
  schedule_packet_departure,
}

module _ (draw_delay : LinkModelConfig → ℕ → ℕ × ℕ) (c : LinkModelConfig) where
  schedule-last :
      (s : LinkModelState) (arrival bytes : ℕ)
      → enabled c ≡ true
      → c.allow_reordering ≡ false
      → s.last_departure_us
        ≤ (schedule_packet_departure draw_delay c s arrival bytes).1.last_departure_us
  unfolding schedule_packet_departure
  schedule-last s arrival bytes on ordered = ground arith

  schedule-departure :
      (s : LinkModelState) (arrival bytes : ℕ) (r : LinkScheduleResult)
      → enabled c ≡ true
      → c.allow_reordering ≡ false
      → (schedule_packet_departure draw_delay c s arrival bytes).0 ≡ some r
      → (s.last_departure_us ≤ r.departure_us)
        × ((schedule_packet_departure draw_delay c s arrival bytes).1.last_departure_us
            ≡ r.departure_us)
  unfolding schedule_packet_departure
  schedule-departure s arrival bytes r on ordered e = ground arith

  -- The departures of the packets that the link lets pass, in the order of their arrivals.
  unfoldable pub departures : LinkModelState → List (ℕ × ℕ) → List ℕ
  departures s [] = []
  departures s ((arrival, bytes) ∷ packets) =
      let (result, t) = schedule_packet_departure draw_delay c s arrival bytes in
      let later = departures t packets in
      elim result [ none ↦ later | some r ↦ r.departure_us ∷ later ]

  abbrev pub IsSortedFrom : ℕ → List ℕ → Type 0
  IsSortedFrom lo [] = Unit {0}
  IsSortedFrom lo (d ∷ ds) = (lo ≤ d) × IsSortedFrom d ds

  IsSortedFrom-weaken :
      (lo hi : ℕ) (ds : List ℕ) → lo ≤ hi → IsSortedFrom hi ds → IsSortedFrom lo ds
  IsSortedFrom-weaken lo hi [] h k = tt
  IsSortedFrom-weaken lo hi (d ∷ ds) h (k, rest) = (le_trans h k, rest)

  -- On a link model that is enabled and does not allow reordering, whatever delays are drawn,
  -- the packets that schedule_packet_departure lets pass leave in the order in which they
  -- arrived, the first of them not before the last departure of the state.
  pub departures-IsSortedFrom :
      (s : LinkModelState) (packets : List (ℕ × ℕ))
      → enabled c ≡ true
      → c.allow_reordering ≡ false
      → IsSortedFrom s.last_departure_us (departures s packets)
  unfolding departures
  departures-IsSortedFrom s [] on ordered = tt
  departures-IsSortedFrom s ((arrival, bytes) ∷ packets) on ordered =
      let (result, t) = schedule_packet_departure draw_delay c s arrival bytes in
      let rest = departures-IsSortedFrom t packets on ordered in
      elim (Option-cases (schedule_packet_departure draw_delay c s arrival bytes).0) [
        | inl e ↦
            rw (e, departures)
              (IsSortedFrom-weaken s.last_departure_us t.last_departure_us (departures t packets)
                (schedule-last s arrival bytes on ordered) rest)
        | inr (r, e) ↦
            let (after, same) = schedule-departure s arrival bytes r on ordered e in
            rw (e, departures)
              (after, subst (λ lo. IsSortedFrom lo (departures t packets)) same rest)
      ]

  -- What the call promises of a packet: when it is dropped and what that leaves, how the packets that
  -- wait are counted, and the link's speed.
  pub record IsBounded (s : LinkModelState) (arrival bytes : ℕ)
      (outcome : Option LinkScheduleResult × LinkModelState) : Type 0 where
    pub dropped : (outcome.0 ≡ none) ↔ (
        (c.queue_length_packets ≢ 0)
        × (c.queue_length_packets ≤ s.queued_packets)
        × (arrival < departure_of draw_delay c s arrival bytes))
    pub untouched :
        outcome.0 ≡ none
        → (outcome.1.queued_packets ≡ s.queued_packets)
          × (outcome.1.capacity_busy_until_us ≡ s.capacity_busy_until_us)
          × (outcome.1.last_departure_us ≡ s.last_departure_us)
    pub counted :
        (r : LinkScheduleResult)
        → outcome.0 ≡ some r
        → (arrival < r.departure_us → outcome.1.queued_packets ≡ s.queued_packets + 1)
          × (r.departure_us ≡ arrival → outcome.1.queued_packets ≡ s.queued_packets)
    pub queue :
        c.queue_length_packets ≢ 0
        → s.queued_packets ≤ c.queue_length_packets
        → outcome.1.queued_packets ≤ c.queue_length_packets
    pub speed :
        (r : LinkScheduleResult)
        → outcome.0 ≡ some r
        → (arrival + serialization_us c bytes ≤ r.departure_us)
          × (s.capacity_busy_until_us + serialization_us c bytes ≤ r.departure_us)
          × (outcome.1.capacity_busy_until_us ≤ r.departure_us)

  dropped_iff :
      (s : LinkModelState) (arrival bytes : ℕ)
      → enabled c ≡ true
      → ((schedule_packet_departure draw_delay c s arrival bytes).0 ≡ none) ↔ (
          (c.queue_length_packets ≢ 0)
          × (c.queue_length_packets ≤ s.queued_packets)
          × (arrival < departure_of draw_delay c s arrival bytes))
  unfolding schedule_packet_departure
  dropped_iff s arrival bytes on = (
    λ e. (λ unlimited. ground arith, ground arith, ground arith),
    λ (limited, full, waits). ground (arith, limited),
  )

  -- schedule_packet_departure on an enabled link model, whatever delay is drawn, drops a packet
  -- exactly if the queue has a length, as many packets or more are counted as queued, and the
  -- packet would leave after its arrival; a drop leaves the count, the time until which the
  -- link is busy and the last departure as they were. A packet that passes is counted exactly
  -- if it leaves after its arrival; the count does not go beyond the length of a queue that has
  -- one; and the packet leaves no earlier than its arrival, and no earlier than the time at
  -- which the link is free, plus the time that the capacity needs for it.
  pub schedule_packet_departure-IsBounded :
      (s : LinkModelState) (arrival bytes : ℕ)
      → enabled c ≡ true
      → IsBounded s arrival bytes (schedule_packet_departure draw_delay c s arrival bytes)
  unfolding schedule_packet_departure
  schedule_packet_departure-IsBounded s arrival bytes on = record {
    dropped = dropped_iff s arrival bytes on;
    untouched = λ e. (ground arith, ground arith, ground arith);
    counted = λ r e. (λ later. ground arith, λ at_once. ground arith);
    queue = λ some_length few. ground arith;
    speed = λ r e. (ground arith, ground arith, ground arith);
  }
