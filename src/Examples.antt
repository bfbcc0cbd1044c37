-- ===== src/Examples.antt =====
-- Runs of the theorems at concrete inputs.
pub mod Storage
pub mod Coding
pub mod Wire
pub mod Tables
pub mod Handler
pub mod Engine
pub mod Tiers
pub mod Hash
pub mod Settings
