-- ===== src/Tests/Media.antt =====
-- The link model of backend/signaling_server/src/sfu_media_utils.cpp at a slow link.
use driscord.Common.{ℕ, ◌≡◌, refl, false, [], ◌∷◌}
use driscord.Media.{fresh_link_state}
use driscord.Media.Link.{LinkModelConfig, pos, negsuc, schedule_packet_departure}
use driscord.Media.Link.Order.{
  departures, IsSortedFrom, IsBounded, departures-IsSortedFrom, schedule_packet_departure-IsBounded,
}

-- 64 kbit/s, 10 ms of delay, and two packets in the queue.
abbrev slow_link : LinkModelConfig
slow_link = record {
  queue_delay_ms = pos 10;
  delay_standard_deviation_ms = negsuc 0;
  queue_length_packets = 2;
  link_capacity_kbps = 64;
  allow_reordering = false;
  duplicate_every_nth = 0;
  seed = 7;
}

abbrev ten_ms : LinkModelConfig → ℕ → ℕ × ℕ
ten_ms c rng = (10000, rng)

-- The third packet finds the queue full.
slow_departures :
    departures ten_ms slow_link fresh_link_state ((0, 80) ∷ (1000, 80) ∷ (2000, 80) ∷ [])
    ≡ 20000 ∷ 30000 ∷ []
unfolding departures schedule_packet_departure
slow_departures = refl

departures-IsSortedFrom_example :
    IsSortedFrom ten_ms slow_link 0
      (departures ten_ms slow_link fresh_link_state ((0, 80) ∷ (1000, 80) ∷ (2000, 80) ∷ []))
departures-IsSortedFrom_example =
    departures-IsSortedFrom ten_ms slow_link fresh_link_state
      ((0, 80) ∷ (1000, 80) ∷ (2000, 80) ∷ []) refl refl

schedule_packet_departure-IsBounded_example :
    IsBounded ten_ms slow_link fresh_link_state 1000 80
      (schedule_packet_departure ten_ms slow_link fresh_link_state 1000 80)
schedule_packet_departure-IsBounded_example =
    schedule_packet_departure-IsBounded ten_ms slow_link fresh_link_state 1000 80 refl
