-- ===== src/Tests.antt =====
-- Concrete inputs on which the theorems are used, and the tests of the definitions.
mod Fixtures
pub mod Contract
pub mod Approval
pub mod Work
pub mod Requests
pub mod Ticks
pub mod Membership
pub mod Policies
pub mod Modules
pub mod Windows
