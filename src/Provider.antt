-- ===== src/Provider.antt =====
-- The provider contract shared by the core and the provider workers (sdk/provider).
pub mod Patterns
pub mod Status
pub mod Create
pub mod Tags
pub mod Power
pub mod Metrics
pub mod Discovery
pub mod Runtime
pub mod Trust
