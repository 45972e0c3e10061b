-- ===== src/Resources.antt =====
-- The resources that Xposed replaces (libxposed_common.cpp).
pub mod Rewrite
pub mod Translated
