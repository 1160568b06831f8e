-- ===== src/Ledger/Journal.antt =====
-- ledger/internal/journal: validating, posting and reversing entries, and the balances.
pub mod Hash
pub mod Validate
pub mod Post
pub mod Reverse
pub mod Balance
pub mod Sound
