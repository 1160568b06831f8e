-- ===== src/Watcher.antt =====
-- depositwatcher, the service that watches BSC: what it tracks of a deposit until the ledger has it.
pub mod Candidates
pub mod Deposits
pub mod Finality
pub mod Confirmations
pub mod Agreement
pub mod Orphaned
mod Tests
