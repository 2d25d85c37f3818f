-- ===== src/Rtp/Packet.antt =====
-- The byte accessors of backend/signaling_server/src/rtp_slot_rewriter.cpp. A packet is the list of
-- its bytes. C++ leaves an access outside the vector undefined: here it is a `fault`.
pub mod Laws
pub mod Words
use driscord.Common.{
  ℕ, zero, suc, ◌+◌, ◌*◌, ◌-◌, ◌/◌, ◌%◌, ◌^◌, Bool, List, none, some, length, get_elem?, set, ltb,
  ◌==◌, if◌then◌else◌, bit_or,
}

abbrev pub Packet : Type 0
Packet = List ℕ

-- `spent` means that a loop's fuel ran out.
pub data Run (A : Type 0) : Type 0 where
  done : A → Run A
  fault : Run A
  spent : Run A

infixl 5 ◌>>=◌
abbrev pub ◌>>=◌ : {A B : Type 0} → Run A → (A → Run B) → Run B
done a >>= f = f a
fault >>= f = fault
spent >>= f = spent

unfoldable pub byte_at : Packet → ℕ → Run ℕ
byte_at packet offset = elim (get_elem? packet offset) [ none ↦ fault | some b ↦ done b ]

unfoldable pub network_u16 : Packet → ℕ → Run ℕ
unfolding byte_at
network_u16 packet offset = do
  high ← byte_at packet offset
  low ← byte_at packet (offset + 1)
  done (bit_or (high * 2 ^ 8) low % 2 ^ 16)

unfoldable pub network_u32 : Packet → ℕ → Run ℕ
unfolding byte_at
network_u32 packet offset = do
  b0 ← byte_at packet offset
  b1 ← byte_at packet (offset + 1)
  b2 ← byte_at packet (offset + 2)
  b3 ← byte_at packet (offset + 3)
  done (bit_or (bit_or (bit_or (b0 * 2 ^ 24 % 2 ^ 32) (b1 * 2 ^ 16)) (b2 * 2 ^ 8)) b3)

-- `packet[offset] = value`.
unfoldable pub set_byte : Packet → ℕ → ℕ → Run Packet
set_byte packet offset value =
    if ltb offset (length packet) then done (set packet offset value) else fault

-- `x & 0xff` is `x % 2 ^ 8`.
unfoldable pub set_network_u16 : Packet → ℕ → ℕ → Run Packet
unfolding set_byte
set_network_u16 packet offset value = do
  packet ← set_byte packet offset (value / 2 ^ 8 % 2 ^ 8)
  set_byte packet (offset + 1) (value % 2 ^ 8)

unfoldable pub set_network_u32 : Packet → ℕ → ℕ → Run Packet
unfolding set_byte
set_network_u32 packet offset value = do
  packet ← set_byte packet offset (value / 2 ^ 24 % 2 ^ 8)
  packet ← set_byte packet (offset + 1) (value / 2 ^ 16 % 2 ^ 8)
  packet ← set_byte packet (offset + 2) (value / 2 ^ 8 % 2 ^ 8)
  set_byte packet (offset + 3) (value % 2 ^ 8)

-- `std::fill` of `count` bytes from `offset` with zeros.
unfoldable pub fill_zero : Packet → ℕ → ℕ → Run Packet
unfolding set_byte
fill_zero packet offset zero = done packet
fill_zero packet offset (suc count) = do
  packet ← set_byte packet offset 0
  fill_zero packet (offset + 1) count

-- `(b & (1 << k)) != 0`, and `b & ~(1 << k)`.
abbrev pub has_bit : ℕ → ℕ → Bool
has_bit b k = b / 2 ^ k % 2 == 1

abbrev pub clear_bit : ℕ → ℕ → ℕ
clear_bit b k = b - b / 2 ^ k % 2 * 2 ^ k
