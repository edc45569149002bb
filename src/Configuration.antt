-- ===== src/Configuration.antt =====
-- What the deployment is configured with (src/configuration).
pub mod Permission
pub mod Ladder
pub mod SignIns
pub mod Tables
pub mod Roles
pub mod Loops
pub mod Grid
pub mod Users
pub mod Eligibility
pub mod Enrolment
pub mod Personalisation
