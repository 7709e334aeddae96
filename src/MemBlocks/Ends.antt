-- ===== src/MemBlocks/Ends.antt =====
-- The loops of pkg/libc_backends/lib/l4re_mem/mem_vFail.cc end.
use kpr.Base.{
  ℕ, zero, suc, ◌+◌, ◌-◌, ◌*◌, ◌/◌, ◌<◌, ◌≤◌, ◌≢◌, length, ltb, Bool-cases, inl, inr, arith,
}
use kpr.MemBlocks.Clear.{clear_bits-some}
use kpr.MemBlocks.Alloc.{
  Search, at, nowhere, scan, Heap, out_of_fuel, page_size, take_pages, take_null, block_at,
  extend_mem, grow, take_extension, round_size, malloc, next, index_of, free_in, free_from, free,
}

grow-ne_out_of_fuel :
    (fuel found required : ℕ) (h : Heap)
    → required ≤ found + 8 * fuel
    → 0 < fuel
    → grow fuel found required h ≢ out_of_fuel
unfolding grow
grow-ne_out_of_fuel zero found required h enough some_round e = absurd (omega arith)
grow-ne_out_of_fuel (suc fuel) found required h enough some_round e =
    ground (arith, grow-ne_out_of_fuel fuel (found + 8) required (extend_mem h).1)

take_extension-ne_out_of_fuel :
    (fuel found required : ℕ) (h : Heap)
    → required ≤ found + 8 * fuel
    → 0 < fuel
    → take_extension fuel found required h ≢ out_of_fuel
unfolding take_extension take_pages take_null
take_extension-ne_out_of_fuel fuel found required h enough some_round e =
    ground (arith, grow-ne_out_of_fuel fuel found required h)

free_in-ne_out_of_fuel : (place addr : ℕ) (h : Heap) → free_in place addr h ≢ out_of_fuel
unfolding free_in
free_in-ne_out_of_fuel place addr h e =
    ground (arith, clear_bits-some (index_of 8 0 addr (block_at place h)) (block_at place h))

-- With two blocks or more the walk stops at the last.
free_from-ne_out_of_fuel :
    (fuel place addr : ℕ) (h : Heap)
    → 0 < place
    → place < length h.blocks
    → length h.blocks ≤ place + fuel
    → free_from fuel place addr h ≢ out_of_fuel
unfolding free_from
free_from-ne_out_of_fuel zero place addr h pos small enough e = absurd (omega arith)
free_from-ne_out_of_fuel (suc fuel) place addr h pos small enough e =
    ground
      (arith, free_in-ne_out_of_fuel place addr h, free_from-ne_out_of_fuel fuel (suc place) addr h)

-- With one it goes round to `head`, and with none it starts there.
free_from-few :
    (fuel addr : ℕ) (h : Heap)
    → length h.blocks < 2
    → length h.blocks ≤ fuel
    → free_from (suc fuel) (next 0 h) addr h ≢ out_of_fuel
unfolding free_from
free_from-few zero addr h few enough e = ground (arith, free_in-ne_out_of_fuel 0 addr h)
free_from-few (suc fuel) addr h few enough e =
    ground (arith, free_in-ne_out_of_fuel 0 addr h, free_in-ne_out_of_fuel 1 addr h)

-- With fuel for an eighth of the pages that a size needs and more fuel than there are blocks, neither
-- `malloc` nor `free` of the block allocator runs out of it.
pub loops_end :
    (fuel size addr : ℕ) (h : Heap)
    → 2 + round_size size / page_size ≤ 8 * fuel
    → length h.blocks < fuel
    → (malloc fuel size h ≢ out_of_fuel) × (free fuel addr h ≢ out_of_fuel)
unfolding malloc free take_pages
loops_end zero size addr h enough several = absurd (omega arith)
loops_end (suc fuel) size addr h enough several = (
  λ e. elim_search (scan 1 0 (2 + round_size size / page_size) h.blocks) e,
  λ e. elim (Bool-cases (ltb (length h.blocks) 2)) [
    | inl few ↦ ground (arith, free_from-few fuel addr h)
    | inr many ↦ ground (arith, free_from-ne_out_of_fuel (suc fuel) 1 addr h)
  ],
)
  where
    elim_search :
        (r : Search)
        → elim r [
          | at place idx found ↦ take_pages (found - 2) idx place h
          | nowhere found ↦ take_extension (suc fuel) found (2 + round_size size / page_size) h
        ]
          ≢ out_of_fuel
    elim_search (at place idx found) e = cc
    elim_search (nowhere found) e =
        take_extension-ne_out_of_fuel (suc fuel) found (2 + round_size size / page_size) h
          (omega arith) (omega arith) e
