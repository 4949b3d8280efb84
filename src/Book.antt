-- ===== src/Book.antt =====
-- src/orderbook.rs: order nodes and levels, the price grid, one instrument's book, the order book
-- over all instruments, and its export.
pub mod Node
pub mod Grid
pub mod Levels
pub mod Queue
pub mod Instrument
pub mod Orders
pub mod Depth
pub mod Export
pub mod Restore
pub mod Tests
