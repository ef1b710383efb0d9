-- ===== src/Models.antt =====
-- ms605/models.py: the meaning of the payloads of single attributes.
pub mod Fields
pub mod Zones
pub mod Segments
pub mod Live
pub mod History
pub mod Intervals
pub mod Config
pub mod Tests
