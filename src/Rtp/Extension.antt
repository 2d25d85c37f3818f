-- ===== src/Rtp/Extension.antt =====
-- Blanking the publisher's MID in the header extension, in the one-byte and the two-byte format
-- (backend/signaling_server/src/rtp_slot_rewriter.cpp). Each loop has fuel: one round moves the
-- cursor on by a byte at least, so `end + 1` rounds reach the end.
pub mod Laws
use driscord.Common.{ℕ, zero, suc, ◌+◌, ◌/◌, ◌%◌, ◌^◌, Bool, true, false, ltb, ◌==◌, if◌then◌else◌}
use driscord.Rtp.Packet.{Packet, Run, done, spent, ◌>>=◌, byte_at, fill_zero}

-- Whether the elements were well formed, and the packet.
abbrev pub Cleared : Type 0
Cleared = Bool × Packet

-- Blanks one element of `size` bytes.
blank : Packet → ℕ → ℕ → Run Cleared
unfolding fill_zero
blank packet cursor size = do packet ← fill_zero packet cursor size; done (true, packet)

clear_one_byte_loop : ℕ → Packet → ℕ → ℕ → ℕ → Run Cleared
unfolding byte_at blank
clear_one_byte_loop zero packet cursor end mid_id = spent
clear_one_byte_loop (suc fuel) packet cursor end mid_id =
    let round = byte_at packet cursor >>= λ descriptor.
    let id = descriptor / 2 ^ 4 in
    let value_size = descriptor % 2 ^ 4 + 1 in
    let skip = clear_one_byte_loop fuel packet (cursor + 1) end mid_id in
    let next = clear_one_byte_loop fuel packet (cursor + (1 + value_size)) end mid_id in
    if descriptor == 0
    then skip
    else if id == 15
    then done (true, packet)
    else if ltb end (cursor + 1 + value_size)
    then done (false, packet)
    else if id == mid_id
    then blank packet cursor (1 + value_size)
    else next in
    if ltb cursor end then round else done (true, packet)

unfoldable pub clear_one_byte_mid : Packet → ℕ → ℕ → ℕ → Run Cleared
unfolding clear_one_byte_loop
clear_one_byte_mid packet begin end mid_id = clear_one_byte_loop (suc end) packet begin end mid_id

clear_two_byte_loop : ℕ → Packet → ℕ → ℕ → ℕ → Run Cleared
unfolding byte_at blank
clear_two_byte_loop zero packet cursor end mid_id = spent
clear_two_byte_loop (suc fuel) packet cursor end mid_id =
    let round = byte_at packet cursor >>= λ id.
    let skip = clear_two_byte_loop fuel packet (cursor + 1) end mid_id in
    let element = byte_at packet (cursor + 1) >>= λ value_size.
    let next = clear_two_byte_loop fuel packet (cursor + (2 + value_size)) end mid_id in
    if ltb end (cursor + 2 + value_size)
    then done (false, packet)
    else if id == mid_id
    then blank packet cursor (2 + value_size)
    else next in
    if id == 0 then skip else if ltb end (cursor + 2) then done (false, packet) else element in
    if ltb cursor end then round else done (true, packet)

unfoldable pub clear_two_byte_mid : Packet → ℕ → ℕ → ℕ → Run Cleared
unfolding clear_two_byte_loop
clear_two_byte_mid packet begin end mid_id = clear_two_byte_loop (suc end) packet begin end mid_id
