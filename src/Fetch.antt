-- ===== src/Fetch.antt =====
-- Provider requests in pipeline/update.py: one call with retries, offset pages, adaptive date ranges.
pub mod Page
pub mod One
pub mod Attempts
pub mod Offset
pub mod Adaptive
pub mod Kept
pub mod Coverage
pub mod Complete
mod Tests
