-- ===== src/Allocator.antt =====
-- pkg/allocator: the bitmap, and the allocator of one subnet's addresses.
pub mod Bitmap
pub mod Subnet
pub mod Examples
