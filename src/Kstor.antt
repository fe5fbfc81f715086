-- ===== src/Kstor.antt =====
-- kstor/: the storage server.
pub mod Layout
pub mod Guid
pub mod Journal
pub mod Volume
pub mod BlockAllocator
mod Tests
