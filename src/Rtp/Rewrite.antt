-- ===== src/Rtp/Rewrite.antt =====
-- `rewrite_rtp_for_slot` (backend/signaling_server/src/rtp_slot_rewriter.cpp). `rtc::IsRtcp` is
-- libdatachannel's, and a parameter. Sizes stay far below 2 ^ 64.
pub mod Finish
pub mod Laws
pub mod Accepts
use driscord.Common.{
  ℕ, ◌+◌, ◌-◌, ◌*◌, ◌/◌, ◌%◌, ◌^◌, Bool, true, false, not, ◌||◌, Option, none, some, List, length,
  take, ltb, leb, ◌==◌, if◌then◌else◌,
}
use driscord.Rtp.Packet.{
  Packet, Run, done, ◌>>=◌, byte_at, network_u16, set_byte, set_network_u32, has_bit, clear_bit,
}
use driscord.Rtp.Extension.{Cleared, clear_one_byte_mid, clear_two_byte_mid}

abbrev pub fixed_header_size : ℕ
fixed_header_size = 12

-- The MID is blanked in the formats of RFC 8285; another profile is passed as it is.
-- `profile & 0xfff0` is `profile / 2 ^ 4 * 2 ^ 4`.
unfoldable pub clear_mid : Packet → ℕ → ℕ → ℕ → Option ℕ → Run Cleared
unfolding clear_one_byte_mid clear_two_byte_mid
clear_mid packet profile body_begin body_end none = done (true, packet)
clear_mid packet profile body_begin body_end (some mid_id) =
    if profile == 0xbede
    then clear_one_byte_mid packet body_begin body_end mid_id
    else if profile / 2 ^ 4 * 2 ^ 4 == 0x1000
    then clear_two_byte_mid packet body_begin body_end mid_id
    else done (true, packet)

-- The padding is cut off, and the slot's SSRC set.
pub finish : Packet → ℕ → ℕ → Run Cleared
unfolding byte_at set_byte set_network_u32
finish packet payload_begin output_ssrc =
    let stamp = λ (p : Packet). set_network_u32 p 8 output_ssrc >>= λ q. done (true, q) in
    let unpad = byte_at packet (length packet - 1) >>= λ padding_size.
    let cut = take (length packet - padding_size) packet in
    let kept = byte_at cut 0 >>= λ b. set_byte cut 0 (clear_bit b 5) >>= stamp in
    if padding_size == 0 || ltb (length packet - payload_begin) padding_size
    then done (false, packet)
    else kept in
    byte_at packet 0 >>= λ first.
    if has_bit first 5
    then (if leb (length packet) payload_begin then done (false, packet) else unpad)
    else stamp packet

-- The header extension at `header_size`, and what follows it.
pub with_extension : Packet → ℕ → ℕ → Option ℕ → Run Cleared
unfolding network_u16 clear_mid finish
with_extension packet header_size output_ssrc mid_id =
    let extension = network_u16 packet header_size >>= λ profile.
    network_u16 packet (header_size + 2) >>= λ words.
    let extension_size = words * 4 in
    let body_begin = header_size + 4 in
    let body_end = body_begin + extension_size in
    let body = clear_mid packet profile body_begin body_end mid_id >>= λ (valid, cleared).
    if valid then finish cleared body_end output_ssrc else done (false, cleared) in
    if ltb (length packet - body_begin) extension_size then done (false, packet) else body in
    if ltb (length packet) (header_size + 4) then done (false, packet) else extension

module _ (is_rtcp : Packet → Bool) where
  unfoldable pub rewrite_rtp_for_slot : Packet → ℕ → Option ℕ → Run Cleared
  unfolding byte_at with_extension finish
  rewrite_rtp_for_slot packet output_ssrc mid_id =
      let refused = done (false, packet) in
      let parse = byte_at packet 0 >>= λ first.
      let header_size = fixed_header_size + first % 2 ^ 4 * 4 in
      if not (first / 2 ^ 6 == 2) || is_rtcp packet
      then refused
      else if ltb (length packet) header_size
      then refused
      else if has_bit first 4
      then with_extension packet header_size output_ssrc mid_id
      else finish packet header_size output_ssrc in
      if ltb (length packet) fixed_header_size then refused else parse
