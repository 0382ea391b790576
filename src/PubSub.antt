-- ===== src/PubSub.antt =====
-- crates/tm-pubsub: the topics of the PubSub transport and the messages that it delivers.
pub mod Topics
pub mod Report
pub mod Protocol
pub mod Payload
pub mod Good
pub mod Prediction
pub mod Notices
pub mod Message
pub mod Transport
