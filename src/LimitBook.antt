-- ===== src/LimitBook.antt =====
-- The limit order book and its ASX listener: vr/vr_rt/src/vr/market/books/limit_order_book.h,
-- impl/limit_order_book_impl.h and asx/market_data_listener.h. `Defs` has the book's data, `Listener`
-- the handlers of the messages; the other children prove their properties.
pub mod Defs
pub mod Listener
pub mod Sides
pub mod Sound
pub mod Erased
pub mod Removed
pub mod Kept
pub mod Emptied
pub mod Remove
pub mod Filled
pub mod Fill
pub mod Added
pub mod Targets
pub mod Add
pub mod Replace
pub mod Checker
pub mod SideChecker
mod Tests
