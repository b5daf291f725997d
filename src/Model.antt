-- ===== src/Model.antt =====
-- spyne/model: the validation of simple values.
pub mod Simple
pub mod Number
pub mod Complex
