-- ===== src/MemList.antt =====
-- pkg/libc_backends/lib/l4re_mem/mem_list.cc: `malloc` and `free` over two circular doubly linked
-- lists of block headers, the blocks in use (`processes_head`) and the free ones (`holes_head`).
pub mod State
pub mod Ops
pub mod Alloc
pub mod Ring
pub mod Steps
pub mod Invariant
pub mod Remove
pub mod Insert
pub mod Join
pub mod Settle
pub mod Heap
pub mod Find
pub mod Move
pub mod Cut
pub mod Take
pub mod Bounds
pub mod Refused
pub mod Free
pub mod Gain
pub mod First
pub mod Extend
pub mod Grown
pub mod Separated
pub mod Links
pub mod Unowned
pub mod Ascending
pub mod Reach
pub mod Spaced
pub mod Headers
pub mod Spread
pub mod Settled
pub mod Laid
pub mod Life
pub mod Reuse
pub mod Supply
pub mod History
pub mod Overlap
pub mod Overflow
mod Tests
mod GrowthTests
mod ReachTests
mod HistoryTests
mod OverlapTests
