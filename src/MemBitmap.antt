-- ===== src/MemBitmap.antt =====
-- The bitmap allocator of pkg/libc_backends/lib/l4re_mem.
pub mod Alloc
pub mod Search
pub mod Mark
pub mod Leak
pub mod Apart
pub mod History
mod Tests
mod HistoryTests
