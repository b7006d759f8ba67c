-- ===== src/Wire.antt =====
-- The wire (crates/loa-wire/src/lib.rs): the messages, and the contract that both ends check.
pub mod Pb
pub mod Contract
