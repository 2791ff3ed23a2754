-- ===== src/Pool.antt =====
-- Object pools: vr/vr_common/src/vr/util/object_pools.h, object_pools.cpp, object_pool_checker.h.
-- `Defs` has the allocator and the pool over it; the other children prove their properties.
pub mod Defs
pub mod Content
pub mod FreeList
pub mod Runs
pub mod Allocate
pub mod Grow
pub mod Exhausted
pub mod Construct
pub mod Walk
pub mod Release
mod Tests
