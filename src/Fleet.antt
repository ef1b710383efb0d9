-- ===== src/Fleet.antt =====
-- ms605/fleet.py, the part that changes the settings of sensors.
pub mod Changes
pub mod Apply
pub mod Batch
pub mod Drafts
