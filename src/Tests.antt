-- ===== src/Tests.antt =====
-- Runs at concrete inputs.
pub mod Service
pub mod Threads
pub mod Boot
pub mod Files
pub mod Forks
pub mod Starts
pub mod Daemons
pub mod Keys
pub mod Hooks
pub mod Remote
pub mod Commands
pub mod Library
