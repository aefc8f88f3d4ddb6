-- ===== src/Turn.antt =====
-- The package internal/turn: tool names and the items of a request.
pub mod Types
pub mod Equality
pub mod Request
pub mod Usage
pub mod Accumulator
pub mod ToolNames
pub mod Samples
pub mod Tests
