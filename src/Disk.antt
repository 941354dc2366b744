-- ===== src/Disk.antt =====
-- Disk usage on a backend, and what may be deleted there: src/scripthut/disk.
pub mod Entries
pub mod Paths
pub mod References
pub mod Classify
pub mod Guards
pub mod Cleanup
