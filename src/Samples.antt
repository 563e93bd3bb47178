-- ===== src/Samples.antt =====
-- The programs of samples/: they use the library as an application does.
pub mod Configuration
pub mod Scope
pub mod Quickstart
pub mod Device
pub mod Gateway
pub mod DataFile
pub mod Handlers
pub mod ManagedDevice
pub mod ManagedGateway
