-- ===== src/Runs.antt =====
-- Runs of the modelled code on concrete inputs.
pub mod Deltas
pub mod Frames
pub mod Messages
pub mod Decisions
pub mod Disk
pub mod Pipelines
pub mod CommandLines
pub mod Checks
