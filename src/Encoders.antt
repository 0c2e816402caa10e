-- ===== src/Encoders.antt =====
-- The encoders of messages (encoders).
pub mod Rfc5424
pub mod Rfc3164
