-- ===== src/Media.antt =====
-- Shared media helpers (backend/signaling_server/src/sfu_media_utils.hpp and .cpp).
pub mod Link
use driscord.Common.{ℕ, Bool, false, Option, none}
use driscord.Rtp.Packet.{Packet}

pub record RtpFaultState : Type 0 where
  pub packets_seen : ℕ
  pub delayed_packet : Option Packet
  pub burst_initialized : Bool
  pub in_bad_state : Bool
  pub rng : ℕ

-- Times are microseconds of a clock that starts at 0.
pub record LinkModelState : Type 0 where
  pub initialized : Bool
  pub rng : ℕ
  pub packets_seen : ℕ
  pub capacity_busy_until_us : ℕ
  pub last_departure_us : ℕ
  pub queued_packets : ℕ

abbrev pub fresh_fault_state : RtpFaultState
fresh_fault_state = record {
  packets_seen = 0;
  delayed_packet = none;
  burst_initialized = false;
  in_bad_state = false;
  rng = 0;
}

abbrev pub fresh_link_state : LinkModelState
fresh_link_state = record {
  initialized = false;
  rng = 0;
  packets_seen = 0;
  capacity_busy_until_us = 0;
  last_departure_us = 0;
  queued_packets = 0;
}
