-- ===== src/Relayd.antt =====
-- relayd, the relay service: what it keeps of a deposit, and what it forwards.
pub mod Pricing
pub mod Legs
pub mod Deposit
mod Tests
