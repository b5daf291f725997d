-- ===== src/Protocol.antt =====
-- The part of spyne/protocol/_base.py that all protocols share.
pub mod Hier
pub mod Translation
pub mod Methods
pub mod Durations
pub mod Fields
pub mod Sparse
pub mod Frequencies
