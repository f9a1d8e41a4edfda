-- ===== src/Scheduling.antt =====
-- Scheduled invocations (src/maivn/_internal/compat/scheduling.py). Instants are whole microseconds,
-- the resolution of Python's `datetime`.
pub mod Retry
pub mod Times
pub mod Record
pub mod Job
pub mod System
mod Tests
