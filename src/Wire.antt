-- ===== src/Wire.antt =====
-- The wire format of FastClone/protocol.cpp: integers and strings in a buffer, and frames.
pub mod Bytes
pub mod MsgType
pub mod Frame
