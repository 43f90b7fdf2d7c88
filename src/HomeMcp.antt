-- ===== src/HomeMcp.antt =====
-- compose/aws/home-mcp: the tools of the voice assistant's server. `Jobs` is jobs.py, `Updates` is
-- updates.py, `Github` is github_status.py,
-- `Platform` is status.py and `Tasks` is tasks.py.
pub mod Jobs
pub mod Updates
pub mod Github
pub mod Platform
pub mod Tasks
