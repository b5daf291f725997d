-- ===== src/Interface.antt =====
-- spyne/interface/_base.py: the registry of an application, its namespace prefixes and the routes
-- from method names to methods.
pub mod Prefixes
pub mod Routes
