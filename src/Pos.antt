-- ===== src/Pos.antt =====
-- The POS surface (pos/): the settlement of a merchant's day.
pub mod Random
pub mod Generator
pub mod Regions
pub mod Messages
pub mod Settlement
pub mod Api
