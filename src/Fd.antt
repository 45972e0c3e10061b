-- ===== src/Fd.antt =====
-- The descriptors that the zygote closes before it forks and opens again after (fd_utils-inl.h).
pub mod Info
pub mod Table
pub mod Reopen
pub mod Safety
pub mod Remembered
pub mod Reopened
pub mod Kernel
pub mod Machine
pub mod Restored
pub mod RoundTrip
pub mod Whole
pub mod Directory
pub mod Scanned
pub mod Fork
