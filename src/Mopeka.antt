-- ===== src/Mopeka.antt =====
-- compose/nuc/mopeka-exporter/mopeka_exporter.py: the readings of the propane sensors as gauges.
pub mod Address
pub mod Tanks
pub mod Sensors
pub mod Proxies
mod Tests
