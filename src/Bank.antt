-- ===== src/Bank.antt =====
-- The bank surface (bank/): its regions, the payments and the mandates.
pub mod Regions
pub mod Messages
pub mod Payments
pub mod Initiation
pub mod Mandates
pub mod Accounts
pub mod Queries
