-- ===== src/Domain/Prediction.antt =====
-- crates/tm-domain/src/prediction.rs: the outcomes of a prediction, the choice of one and of the
-- stake, and the settlement.
pub mod Choice
pub mod Stake
pub mod Settlement
pub mod Filter
mod Display
