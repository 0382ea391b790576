-- ===== src/Domain.antt =====
-- The crate tm-domain: settings, streams, streamers, predictions and events.
pub mod Float
pub mod Platform
pub mod Settings
pub mod Json
pub mod Stream
pub mod Streamer
pub mod Formatting
pub mod PredictionEvent
pub mod Prediction
pub mod Events
pub mod Priority
pub mod Watch
