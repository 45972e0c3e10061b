-- ===== src/AppProcess.antt =====
-- The command line of app_process (app_main2.cpp, and app_main.cpp for older systems).
pub mod Args
pub mod Main
pub mod Printed
pub mod Unreached
pub mod Older
pub mod Agreement
pub mod ArgBlock
pub mod Named
pub mod Runtime
pub mod Tool
pub mod Cache
