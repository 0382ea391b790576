-- ===== src/App.antt =====
-- crates/tm-app: what the application keeps between the runtime and the network.
pub mod Journal
