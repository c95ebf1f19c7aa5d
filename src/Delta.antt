-- ===== src/Delta.antt =====
-- The delta engine, FastClone/delta.cpp and delta.h.
pub mod Signature
pub mod Weak
pub mod BlockSize
pub mod Project
pub mod Sign
pub mod Plan
pub mod Stream
