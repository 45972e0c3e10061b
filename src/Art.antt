-- ===== src/Art.antt =====
-- libxposed_art.cpp: what hooks are for the runtime ART.
pub mod Defs
pub mod Originals
