-- ===== src/Buffer.antt =====
-- core/buffer: readers and writers of bytes.
pub mod Order
pub mod Writer
pub mod Reader
pub mod Codec
pub mod Tests
