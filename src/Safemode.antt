-- ===== src/Safemode.antt =====
-- xposed_safemode.cpp: the key presses that keep Xposed from loading.
pub mod Defs
pub mod Detect
pub mod Devices
pub mod Effects
pub mod Answered
pub mod Opened
pub mod Tidy
pub mod Time
pub mod Presses
pub mod Counted
pub mod Repeated
pub mod Started
pub mod Trigger
pub mod Ended
