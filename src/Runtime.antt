-- ===== src/Runtime.antt =====
-- The crate tm-runtime: the state of the miner and the reducer of its events.
pub mod Dedupe
pub mod State
pub mod Presence
pub mod Requests
pub mod Watching
pub mod Points
pub mod Settlement
pub mod Predictions
pub mod Completion
pub mod Events
pub mod PredictionEvents
pub mod Reducer
pub mod Reload
pub mod Selections
