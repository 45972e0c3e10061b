-- ===== src/Dalvik.antt =====
-- Hooks of methods in the Dalvik virtual machine (libxposed_dalvik.cpp).
pub mod Defs
pub mod Hook
pub mod Callback
pub mod Refines
pub mod Boxing
pub mod Handler
pub mod Start
pub mod Objects
