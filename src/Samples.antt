-- ===== src/Samples.antt =====
-- Tests, and each theorem at a concrete input.
pub mod Durability
mod Waking
mod Inboxes
mod Catalogs
mod Packages
mod Frames
pub mod Queueing
mod Scheduling
