-- ===== src/Audit.antt =====
-- src/audit.rs: the audit file of a host, its rotation and its recovery, and the audited policies.
pub mod Disk
pub mod Rotation
pub mod Records
pub mod Yields
pub mod Tails
pub mod Log
pub mod Store
