-- ===== src/MemBlocks/Tests.antt =====
-- Runs of the block allocator.
use kpr.Base.{ℕ, ◌≡◌, ◌≢◌, refl, ◌==◌, true, false, [], ◌∷◌, ltb, leb, ◌&&◌, if◌then◌else◌, arith}
use kpr.Env.{Grant, granted}
use kpr.MemBlocks.Blocks.{Block, is_zero}
use kpr.MemBlocks.Alloc.{
  Heap, ok, fault, out_of_fuel, address, scan, scan_bits, round_size, malloc, free, nth, with_block,
}
use kpr.MemBlocks.Flat.{flat, bit_of, scan-Found}
use kpr.MemBlocks.Free.{free_several}
use kpr.MemBlocks.Pages.{with_pages, empty}
use kpr.MemBlocks.Return.{free_detaches}
use kpr.MemBlocks.Hit.{malloc-hit}
use kpr.MemBlocks.Wrap.{with_ends, malloc-wraps}
use kpr.MemBlocks.Ends.{loops_end}
use kpr.MemBitmap.Search.{Found}

-- Two runs of pages: 1 and 2, and 7.
abbrev block : Block
block = record { addr = 4096; bitmap = λ i. if i == 7 then true else (leb 1 i && ltb i 3) }

abbrev behind : Block
behind = record { addr = 65536; bitmap = λ _. false }

abbrev grant : Grant
grant = record { cap_is_valid = true; alloc_err = 0; attach_err = 0; addr = 4096 }

abbrev heap : Heap
heap = record {
  head = record { addr = 256; bitmap = λ _. false };
  blocks = block ∷ behind ∷ [];
  grants = [];
  detaches = λ runner addr. runner == 4096 && ltb addr 36876;
  detached = [];
}

-- The first page is taken with a free one before and behind it.
scan-Found_example :
    Found (flat (block ∷ behind ∷ [])) 16 3 (bit_of (scan 1 0 3 (block ∷ behind ∷ [])))
scan-Found_example = scan-Found 3 (block ∷ behind ∷ []) (omega arith)

malloc-hit_example :
    (b : Block) × (malloc 1 100 heap ≡ ok (address 4096 4) (with_block 1 b heap))
    × (b.addr ≡ 4096)
    × ((i : ℕ) → b.bitmap i ≡ with_pages 4 5 block.bitmap i)
unfolding round_size scan scan_bits is_zero nth
malloc-hit_example = malloc-hit 1 100 1 5 3 heap refl (omega arith)

free_detaches_example :
    (h' : Heap) × (malloc 1 5000 (empty heap (grant ∷ [])) ≡ ok 10252 h')
    × (b : Block) × (free 1 10252 h' ≡ fault)
    × (b.addr ≡ 4096)
    × ((i : ℕ) → b.bitmap i ≡ false)
unfolding granted round_size
free_detaches_example = free_detaches heap grant [] 4096 5000 0 0 refl (omega arith) (omega arith)

free_several_example : free 2 (address 4096 1) heap ≡ ok tt heap
free_several_example =
    free_several heap (omega arith) (omega arith, (omega arith, tt)) 2 (address 4096 1)
      (omega arith) (omega arith)

loops_end_example : (malloc 3 70000 heap ≢ out_of_fuel) × (free 3 4108 heap ≢ out_of_fuel)
unfolding round_size
loops_end_example = loops_end 3 70000 4108 heap (omega arith) (omega arith)

-- The run of three free pages goes from the first block into the second.
abbrev over_the_end : Heap
over_the_end = record heap { blocks = record { addr = 4096; bitmap = λ i. ltb i 6 } ∷ behind ∷ [] }

malloc-wraps_example :
    (b : Block) × (malloc 1 100 over_the_end ≡ ok (address 65536 7) (with_block 2 b over_the_end))
    × (b.addr ≡ 65536)
    × ((i : ℕ) → b.bitmap i ≡ with_ends 7 0 behind.bitmap i)
unfolding round_size scan scan_bits is_zero nth
malloc-wraps_example = malloc-wraps 1 100 2 0 3 over_the_end refl (omega arith) (omega arith)
