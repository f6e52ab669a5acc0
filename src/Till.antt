-- ===== src/Till.antt =====
-- The till of packages/mock/src/store.ts: sales, parked sales, voids and refunds, with the stock, the
-- tables, the payments and the documents that they move.
pub mod Data
pub mod Method
pub mod Allocate
pub mod Price
pub mod Stock
pub mod Tables
pub mod Tenders
pub mod Sale
pub mod Park
pub mod Correct
pub mod Floor
pub mod Gives
pub mod Held
pub mod Sound
pub mod Keeps
pub mod Tendered
pub mod Refunded
pub mod Settled
pub mod Steps
mod Tests
