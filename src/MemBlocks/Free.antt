-- ===== src/MemBlocks/Free.antt =====
-- What `free` of pkg/libc_backends/lib/l4re_mem/mem_vFail.cc does with more than one block, and where the
-- addresses of `malloc` are.
use kpr.Base.{ℕ, zero, suc, ◌+◌, ◌*◌, ◌^◌, ◌<◌, ◌≤◌, ◌≡◌, List, [], ◌∷◌, length, All, arith}
use kpr.MemBlocks.Blocks.{Block}
use kpr.MemBlocks.Alloc.{
  Heap, ok, address, elem_size, page_size, block_size, nth, block_at, index_of, free_in, is_in,
  free_from, free,
}

-- A block lies below the end of the address space, with room for each address that is made in it.
abbrev pub Fits : Block → Type 0
Fits b = b.addr + elem_size * (1 + page_size) < 2 ^ 32

-- For a block that does not reach the end of the address space and an index from 5 to 7, the page at
-- the address that `malloc` makes ends behind the block.
address_outside :
    (runner idx : ℕ)
    → runner + elem_size * (1 + page_size) < 2 ^ 32
    → 5 ≤ idx
    → idx < 8
    → runner + elem_size + block_size < address runner idx + page_size
address_outside runner idx small l h = omega arith

index_of_below :
    (n idx addr : ℕ) (b : Block)
    → idx + n ≤ 8
    → Fits b
    → addr < b.addr
    → index_of n idx addr b ≡ idx + n
unfolding index_of
index_of_below zero idx addr b top fits below = omega arith
index_of_below (suc n) idx addr b top fits below = ground (arith, index_of_below n (suc idx) addr b)

nth-Fits : (n : ℕ) (d : Block) (bs : List Block) → Fits d → All Fits bs → Fits (nth n d bs)
unfolding nth
nth-Fits zero d bs f fs = f
nth-Fits (suc n) d [] f fs = f
nth-Fits (suc n) d (b ∷ bs) f (g, fs) = nth-Fits n b bs g fs

-- An address before a block is at none of its indexes.
free_in_below :
    (place addr : ℕ) (h : Heap)
    → Fits h.head
    → All Fits h.blocks
    → addr < (block_at place h).addr
    → free_in place addr h ≡ ok tt h
unfolding free_in
free_in_below place addr h f fs below = ground (
  arith,
  index_of_below 8 0 addr (block_at place h) (omega arith) (nth-Fits place h.head h.blocks f fs)
      below,
)

module _ (h : Heap) (f : Fits h.head) (fs : All Fits h.blocks) where
  free_from_lem :
      (fuel place addr : ℕ)
      → 0 < place
      → place < length h.blocks
      → length h.blocks ≤ place + fuel
      → free_from fuel place addr h ≡ ok tt h
  unfolding free_from is_in
  free_from_lem zero place addr pos small enough = absurd (omega arith)
  free_from_lem (suc fuel) place addr pos small enough =
      ground (arith, free_in_below place addr h f fs, free_from_lem fuel (suc place) addr)

  -- With two blocks or more, whose addresses do not reach the end of the address space, and fuel for
  -- their number, `free` of the block allocator changes nothing, whatever the address.
  pub free_several :
      (fuel addr : ℕ) → 1 < length h.blocks → length h.blocks ≤ fuel → free fuel addr h ≡ ok tt h
  unfolding free
  free_several fuel addr several enough = ground (arith, free_from_lem fuel 1 addr)
