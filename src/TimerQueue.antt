-- ===== src/TimerQueue.antt =====
-- The priority queue of vr/vr_common/src/vr/containers/util/treap_priority_queue.h, and the queue of
-- timer events on it, vr/vr_common/src/vr/util/timer_event_queue.h.
pub mod Random
pub mod Defs
pub mod Ordered
pub mod Sound
pub mod Inserted
pub mod Events
pub mod New
mod Tests
