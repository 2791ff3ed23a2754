-- ===== src/SoupTcp.antt =====
-- The framing of messages in a TCP stream: vr/vr_rt/src/vr/market/net/SoupTCP_.h, and the receiving
-- part of vr/vr_rt/src/vr/market/rt/asx/execution_link.cpp.
pub mod Defs
pub mod Link
pub mod Frames
pub mod Prefix
pub mod Scan
pub mod Stream
pub mod Poll
pub mod Deliver
pub mod Reader
pub mod Stuck
mod Tests
