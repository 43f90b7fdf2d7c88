-- ===== src/Exposure.antt =====
-- compose/aws/host/exposure-check.py and compose/aws/home-mcp/exposure.py: the scan of the open ports,
-- and what is told of it.
pub mod Endpoints
pub mod Scan
pub mod Answer
pub mod Told
pub mod Fresh
mod Tests
