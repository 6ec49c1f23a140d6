-- ===== src/Emitters.antt =====
-- src/emitters: the emitters that the crate has.
pub mod Callback
pub mod Default
