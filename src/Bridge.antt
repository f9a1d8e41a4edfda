-- ===== src/Bridge.antt =====
-- The event bridge between a running agent and a frontend (src/maivn/events/_bridge).
pub mod Event
pub mod History
pub mod Queue
pub mod Dedup
pub mod State
pub mod Stream
mod Tests
