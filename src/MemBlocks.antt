-- ===== src/MemBlocks.antt =====
-- The block allocator of pkg/libc_backends/lib/l4re_mem/mem_vFail.cc.
pub mod Blocks
pub mod Index
pub mod Alloc
pub mod Clear
pub mod Flat
pub mod Free
pub mod Pages
pub mod Return
pub mod Hit
pub mod Wrap
pub mod Ends
mod Tests
