-- ===== src/Libgraphics.antt =====
-- libraries/libgraphics: what is drawn where.
pub mod Geometry
