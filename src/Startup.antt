-- ===== src/Startup.antt =====
-- The start of the zygote (xposed.cpp).
pub mod Defs
pub mod Boot
pub mod Commands
pub mod FlagFiles
pub mod Order
pub mod Persists
pub mod Paths
pub mod Rights
pub mod Dropping
pub mod Properties
pub mod Written
