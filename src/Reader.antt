-- ===== src/Reader.antt =====
-- src/reader.rs: the trait `Reader` and its implementations.
pub mod Trait
pub mod StringReader
