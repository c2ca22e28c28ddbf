-- ===== src/Risk.antt =====
-- risk/manager.py: the risk manager. Rejection texts are constructors of `Reason`, without the
-- figures that they quote; log lines are left out.
pub mod Trade
pub mod Streak
pub mod State
pub mod Sync
pub mod Runs
pub mod Search
pub mod Reason
pub mod Sizing
pub mod Calendar
pub mod Checks
pub mod Exposure
pub mod Override
mod Tests
