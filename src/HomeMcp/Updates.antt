-- ===== src/HomeMcp/Updates.antt =====
-- compose/aws/home-mcp/updates.py: what is out of date across the platform.
pub mod Tags
pub mod Images
pub mod Walk
pub mod Registry
pub mod Checks
pub mod Report
pub mod Hosts
pub mod Network
