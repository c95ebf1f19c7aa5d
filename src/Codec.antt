-- ===== src/Codec.antt =====
-- The message payloads of FastClone/protocol_codec.cpp: an encoder and a decoder for each message.
pub mod Handshake
pub mod Messages
pub mod Signatures
