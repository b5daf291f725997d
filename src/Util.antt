-- ===== src/Util.antt =====
-- The containers and helpers of spyne/util.
pub mod Odict
pub mod Cdict
