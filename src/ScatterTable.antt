-- ===== src/ScatterTable.antt =====
-- The hash table with chaining inside its bucket array:
-- vr/vr_common/src/vr/containers/util/chained_scatter_table.h. `Defs` has the data and the operations;
-- the other children have the invariant and the proofs.
pub mod Log2
pub mod Defs
pub mod Ring
pub mod Chains
pub mod Layout
pub mod Steps
pub mod Freed
pub mod Walks
pub mod Spec
pub mod Get
pub mod Put
pub mod Displace
pub mod PutOnce
pub mod PutLaw
pub mod Remove
pub mod Construct
pub mod Rehash
pub mod Grow
pub mod Resize
mod Tests
