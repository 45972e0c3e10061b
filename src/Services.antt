-- ===== src/Services.antt =====
-- The start of the services (xposed_service.cpp, lines 786-942).
pub mod Daemons
pub mod Confined
