-- ===== src/Machine/Safety.antt =====
-- src/machine.rs: no state's function panics.
pub mod Ready
pub mod Rules
pub mod Rounds
pub mod Run
