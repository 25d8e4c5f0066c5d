-- ===== src/Informers.antt =====
-- The shared informer factory (pkg/client/informers/externalversions).
pub mod Factory
pub mod Start
pub mod Registry
pub mod Generic
pub mod Shutdown
pub mod Listing
pub mod Synced
pub mod Interface
pub mod Contract
pub mod Typed
