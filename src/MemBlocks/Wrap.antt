-- ===== src/MemBlocks/Wrap.antt =====
-- What `malloc` of pkg/libc_backends/lib/l4re_mem/mem_vFail.cc takes where the free run that it finds began in
-- an earlier block.
use kpr.Base.{
  ℕ, zero, suc, ◌+◌, ◌-◌, ◌*◌, ◌/◌, ◌<◌, ◌≤◌, ◌≡◌, ap, subst, ◌∙◌, Bool, true, ◌&&◌, ◌||◌, ltb, leb,
  length, if◌then◌else◌, arith,
}
use kpr.MemBlocks.Blocks.{Block, set_bit, dec_idx}
use kpr.MemBlocks.Index.{dec_idx_lem}
use kpr.MemBlocks.Alloc.{
  at, scan, Heap, ok, address, page_size, set_back, take_pages, block_at, with_block, round_size,
  malloc,
}
use kpr.MemBlocks.Flat.{flat, bit_of, scan-Found}
use kpr.MemBlocks.Hit.{scan-at}
use kpr.MemBitmap.Search.{Found}
use kpr.MemBlocks.Pages.{dec_idx_one, set_back_lem}

-- The bits below `idx`, and those from `low` on to the end of the block.
abbrev pub with_ends : (low idx : ℕ) → (ℕ → Bool) → ℕ → Bool
with_ends low idx bits i = if ltb i idx || (leb low i && ltb i 8) then true else bits i

-- Going back over the start of a block goes on at its own end.
set_back_wraps :
    (idx n : ℕ) (b : Block)
    → idx < 8
    → n < 8
    → ((set_back (idx + suc n) idx b).0 ≡ 7 - n)
      × ((set_back (idx + suc n) idx b).1.addr ≡ b.addr)
      × ((i : ℕ) → (set_back (idx + suc n) idx b).1.bitmap i ≡ with_ends (7 - n) idx b.bitmap i)
unfolding set_back set_bit
set_back_wraps zero n b small few =
    let count : 0 + suc n ≡ suc n = omega arith in
    let back : dec_idx 0 1 ≡ 7 = dec_idx_lem 0 1 small ∙ omega arith in
    let top : 7 ≡ 7 - n + n = omega arith in
    let step : set_back (0 + suc n) 0 b ≡ set_back n (7 - n + n) (set_bit 7 b) =
      ap (λ k. set_back k 0 b) count
      ∙ ap (λ i. set_back n i (set_bit i b)) back
      ∙ ap (λ i. set_back n i (set_bit 7 b)) top in
    let (lands, stays, sets) = set_back_lem n (7 - n) (set_bit 7 b) (omega arith) in
    rw step (lands, stays, λ i. ground (arith, sets i))
set_back_wraps (suc idx) n b small few =
    let count : suc idx + suc n ≡ suc (idx + suc n) = omega arith in
    let step : set_back (suc idx + suc n) (suc idx) b ≡ set_back (idx + suc n) idx (set_bit idx b) =
      ap (λ k. set_back k (suc idx) b) count
      ∙ ap (λ i. set_back (idx + suc n) i (set_bit i b)) (dec_idx_one idx (omega arith)) in
    let (lands, stays, sets) = set_back_wraps idx n (set_bit idx b) (omega arith) few in
    rw step (lands, stays, λ i. ground (arith, sets i))

-- Where the search stops at an index with fewer pages of the block before it than the size needs, with
-- at most eight of them missing: `malloc` of the block allocator sets the bits before that index and
-- as many as are missing at the end of the same block, free or not, changes no other block, and
-- returns the address of the first of those at the end.
pub malloc-wraps :
    (fuel size place idx found : ℕ) (h : Heap)
    → scan 1 0 (2 + round_size size / page_size) h.blocks ≡ at place idx found
    → idx < round_size size / page_size
    → round_size size / page_size ≤ idx + 8
    → (b : Block) × (malloc fuel size h
        ≡ ok
            (address (block_at place h).addr (idx + 8 - round_size size / page_size))
            (with_block place b h))
      × (b.addr ≡ (block_at place h).addr)
      × ((i : ℕ)
          → b.bitmap i
            ≡ with_ends (idx + 8 - round_size size / page_size) idx (block_at place h).bitmap i)
unfolding malloc take_pages
malloc-wraps fuel size place idx found h e over few =
    let pages = round_size size / page_size in
    let whole : found ≡ 2 + pages =
      (subst (Found (flat h.blocks) (8 * length h.blocks) (2 + pages)) (ap bit_of e)
        (scan-Found (2 + pages) h.blocks (omega arith))).0 in
    let small = scan-at h.blocks 1 0 (2 + pages) place idx found e in
    let low = idx + 8 - pages in
    let n = pages - suc idx in
    let b = block_at place h in
    let (lands, stays, sets) = set_back_wraps idx n b small (omega arith) in
    let count : found - 2 ≡ idx + suc n = omega arith in
    let ends : 7 - n ≡ low = omega arith in
    let taken = (set_back (idx + suc n) idx b).1 in
    (
      taken,
      rw (e, malloc)
          (ap (λ n. take_pages n idx place h) count
            ∙ ap (λ i. ok (address taken.addr i) (with_block place taken h)) (lands ∙ ends)
            ∙ ap (λ a. ok (address a low) (with_block place taken h)) stays),
      stays,
      λ i. sets i ∙ ap (λ j. with_ends j idx b.bitmap i) ends,
    )
