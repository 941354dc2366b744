-- ===== src/Manager.antt =====
-- src/scripthut/runs/manager.py: `RunManager`.
pub mod World
pub mod Cascade
pub mod Submit
pub mod Slots
pub mod Generate
pub mod Process
pub mod Observe
pub mod Control
pub mod Validate
pub mod Update
pub mod Lookups
pub mod Progress
