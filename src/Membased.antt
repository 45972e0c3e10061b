-- ===== src/Membased.antt =====
-- xposed_service.cpp, namespace membased: the memory-based service that the Zygote uses.
pub mod Shared
pub mod Server
pub mod Process
pub mod Client
pub mod ReadFile
pub mod Answers
pub mod WholeFile
pub mod Terminates
pub mod Overflow
