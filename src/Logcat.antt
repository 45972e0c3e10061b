-- ===== src/Logcat.antt =====
-- The daemon that copies the system's log (xposed_logcat.cpp).
pub mod Daemon
pub mod Copied
pub mod Start
pub mod Confined
