-- ===== src/Media/Link.antt =====
-- The link model: when a packet leaves an emulated link
-- (backend/signaling_server/src/sfu_media_utils.cpp). Times are microseconds and stay far below
-- 2 ^ 63. The random delay is computed in floating point: it is the parameter `draw_delay`, of the
-- configuration and the generator's state, which gives the delay and the generator's next state.
pub mod Order
use driscord.Common.{
  ℕ, ◌+◌, ◌*◌, ◌/◌, ◌%◌, ◌^◌, max, Bool, true, false, not, ◌&&◌, ◌||◌, Option, none, some, ltb, leb,
  ◌==◌, if◌then◌else◌,
}
use driscord.Media.{LinkModelState}

-- An `int` that may be negative.
pub data ℤ : Type 0 where
  pos negsuc : ℕ → ℤ

abbrev pub is_positive : ℤ → Bool
is_positive (pos n) = ltb 0 n
is_positive (negsuc n) = false

pub record LinkModelConfig : Type 0 where
  pub queue_delay_ms : ℤ
  pub delay_standard_deviation_ms : ℤ
  pub queue_length_packets : ℕ
  pub link_capacity_kbps : ℕ
  pub allow_reordering : Bool
  pub duplicate_every_nth : ℕ
  pub seed : ℕ

abbrev pub enabled : LinkModelConfig → Bool
enabled c =
    is_positive c.queue_delay_ms
    || is_positive c.delay_standard_deviation_ms
    || ltb 0 c.link_capacity_kbps
    || ltb 0 c.duplicate_every_nth

pub record LinkScheduleResult : Type 0 where
  pub departure_us : ℕ
  pub duplicate : Bool

-- The time that the link takes for the packet.
abbrev pub serialization_us : LinkModelConfig → ℕ → ℕ
serialization_us c packet_bytes =
    if c.link_capacity_kbps == 0 then 0 else packet_bytes * 8000 / c.link_capacity_kbps

module _ (draw_delay : LinkModelConfig → ℕ → ℕ × ℕ) where
  -- The state in which the generator is started and the packet counted.
  abbrev pub counted : LinkModelConfig → LinkModelState → LinkModelState
  counted c s = record s {
    rng = if s.initialized then s.rng else (c.seed + 0x9e3779b97f4a7c15) % 2 ^ 64;
    initialized = true;
    packets_seen = (s.packets_seen + 1) % 2 ^ 64;
  }

  abbrev pub delay_us : LinkModelConfig → ℕ → ℕ × ℕ
  delay_us c rng =
      if is_positive c.queue_delay_ms || is_positive c.delay_standard_deviation_ms
      then draw_delay c rng
      else (0, rng)

  -- When the packet would leave.
  abbrev pub departure_of : LinkModelConfig → LinkModelState → ℕ → ℕ → ℕ
  departure_of c s arrival_us packet_bytes =
      let start = max arrival_us s.capacity_busy_until_us in
      let delayed = start + serialization_us c packet_bytes + (delay_us c (counted c s).rng).0 in
      if c.allow_reordering then delayed else max delayed s.last_departure_us

  -- The result, and the state that the call leaves.
  unfoldable pub schedule_packet_departure :
      LinkModelConfig → LinkModelState → ℕ → ℕ → Option LinkScheduleResult × LinkModelState
  schedule_packet_departure c s arrival_us packet_bytes =
      let drawn = record (counted c s) { rng = (delay_us c (counted c s).rng).1 } in
      let departure = departure_of c s arrival_us packet_bytes in
      let left : LinkModelState = record drawn {
        capacity_busy_until_us =
            max arrival_us s.capacity_busy_until_us + serialization_us c packet_bytes;
        last_departure_us = departure;
        queued_packets =
            if ltb arrival_us departure then s.queued_packets + 1 else s.queued_packets;
      } in
      let result : LinkScheduleResult = record {
        departure_us = departure;
        duplicate =
            not (c.duplicate_every_nth == 0) && (drawn.packets_seen % c.duplicate_every_nth == 0);
      } in
      if not (enabled c)
      then (some record { departure_us = arrival_us; duplicate = false }, s)
      else if ltb arrival_us departure
          && not (c.queue_length_packets == 0)
          && leb c.queue_length_packets s.queued_packets
      then (none, drawn)
      else (some result, left)
