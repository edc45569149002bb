-- ===== src/State.antt =====
-- The state authority: every live fact, held in one process behind one lock (src/state.rs).
pub mod Readings
pub mod Documents
pub mod Session
pub mod Live
pub mod Seats
pub mod Console
pub mod Channel
pub mod Projections
pub mod Acts
pub mod Sound
pub mod Seating
pub mod Requests
pub mod Occupancy
pub mod History
pub mod Limits
pub mod Displacement
pub mod Routing
pub mod StaffingLaws
pub mod Versions
pub mod Measures
pub mod Pressing
pub mod Priority
