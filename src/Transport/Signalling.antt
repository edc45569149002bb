-- ===== src/Transport/Signalling.antt =====
-- The signalling conversation of one tab (src/transport/signalling.rs).
pub mod Messages
pub mod Scene
pub mod Documents
pub mod Taking
pub mod Acts
pub mod Received
pub mod Standing
pub mod Keeping
pub mod Ledger
pub mod Recording
pub mod Returning
pub mod Displaced
pub mod Permitted
