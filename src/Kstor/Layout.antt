-- ===== src/Kstor/Layout.antt =====
-- kstor/api.h: the packed structures on disk, as fields at their offsets in a page.
pub mod Fields
pub mod TxBlock
pub mod Codec
pub mod Header
pub mod VolumeHeader
