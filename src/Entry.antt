-- ===== src/Entry.antt =====
-- order_entry/: what clients send, on its way to the matching engine.
pub mod Validator
pub mod Handler
pub mod Stream
