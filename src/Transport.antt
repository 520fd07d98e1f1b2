-- ===== src/Transport.antt =====
-- transport/message/ and transport/common/: what travels beside a message.
pub mod MessageInfo
