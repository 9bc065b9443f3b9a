-- ===== src/Common.antt =====
-- src/common and include/VertexDB/common: typed values, LIKE patterns.
pub mod Double
pub mod Value
pub mod LikePattern
