-- ===== src/Bridge.antt =====
-- The library inside the virtual machine: what both runtimes share (libxposed_common.cpp), its loading
-- (xposed.cpp), and the descriptors around a fork (libxposed_art.cpp).
pub mod Init
pub mod Loaded
pub mod Files
pub mod Delivered
pub mod Forks
pub mod Natives
