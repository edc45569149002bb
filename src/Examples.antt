-- ===== src/Examples.antt =====
-- Runs of the modelled operations on a small deployment.
pub mod Deployment
pub mod Seats
pub mod Sound
pub mod Access
pub mod Administration
pub mod Conversation
pub mod Clocks
