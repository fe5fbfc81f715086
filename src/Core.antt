-- ===== src/Core.antt =====
-- core/: the containers and helpers of the kernel library.
pub mod RingBuffer
pub mod HashTable
pub mod Bitmap
pub mod Memory
pub mod Bytes
pub mod Disk
pub mod Bio
pub mod Btree
mod Tests
