-- ===== src/Rtp.antt =====
-- RTP packets between the publisher's track and a subscriber's slot
-- (backend/signaling_server/src/rtp_slot_rewriter.cpp).
pub mod Packet
pub mod Extension
pub mod Rewrite
pub mod Slot
