-- ===== src/Decisions.antt =====
-- Categorical decisions with a caller-owned baseline (src/maivn/_internal/decisions).
pub mod Model
pub mod Routing
pub mod Batch
pub mod Platform
pub mod NativeUnit
pub mod Usage
pub mod Flow
pub mod Matching
mod Tests
