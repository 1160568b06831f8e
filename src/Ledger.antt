-- ===== src/Ledger.antt =====
-- The ledger service, ledger/internal.
pub mod Rows
pub mod Monad
pub mod Accounts
pub mod Journal
pub mod Halt
pub mod Orders
pub mod Snapshots
pub mod SelfCheck
mod Tests
