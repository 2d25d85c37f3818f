-- ===== src/Tests.antt =====
-- Runs at concrete inputs, and each theorem that has hypotheses at an input that meets them.
pub mod Screen
pub mod Server
pub mod Watch
pub mod Url
pub mod Rtp
pub mod Signaling
pub mod Voice
pub mod Queue
pub mod Media
