-- ===== src/ScatterTable/Defs.antt =====
-- The table's data and operations (vr/vr_common/src/vr/containers/util/chained_scatter_table.h).
mod Slots
mod Access
mod Sizing
unfoldable pub use Slots.*
unfoldable pub use Access.*
unfoldable pub use Sizing.*
