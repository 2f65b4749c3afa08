-- ===== src/Workers.antt =====
-- app/workers: the background workers, and the recovery at the start.
pub mod DmWorker
pub mod Manager
pub mod Loops
pub mod Start
pub mod Shutdown
