-- ===== src/Decoders.antt =====
-- The decoders of messages (decoders).
pub mod Texts
pub mod Rfc3164
