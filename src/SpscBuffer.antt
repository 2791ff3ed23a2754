-- ===== src/SpscBuffer.antt =====
-- The single-producer single-consumer ring of vr/vr_common/src/vr/mc/lf_spsc_buffer.h: its operations
-- in `Defs`, the two threads as a step relation in `System`; the other children prove properties.
pub mod Defs
pub mod System
pub mod Inv
pub mod Window
pub mod Refine
pub mod Order
pub mod Access
pub mod Drain
mod Tests
