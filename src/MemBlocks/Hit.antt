-- ===== src/MemBlocks/Hit.antt =====
-- What `malloc` of pkg/libc_backends/lib/l4re_mem/mem_vFail.cc takes where the search finds a place in a
-- block.
use kpr.Base.{
  ℕ, zero, suc, ◌+◌, ◌-◌, ◌*◌, ◌/◌, ◌<◌, ◌≤◌, ◌≡◌, refl, ap, sym, subst, ◌∙◌, List, [], ◌∷◌, length,
  if◌then◌else◌, arith,
}
use kpr.MemBlocks.Blocks.{Block, is_zero}
use kpr.MemBlocks.Alloc.{
  Scan, hit, miss, at, scan_bits, scan, Heap, ok, address, page_size, set_back, take_pages,
  block_at, with_block, round_size, malloc,
}
use kpr.MemBlocks.Flat.{flat, bit_of, scan-Found}
use kpr.MemBitmap.Search.{Found}
use kpr.MemBlocks.Pages.{with_pages, set_back_lem}

scan_bits-hit :
    (n idx found required : ℕ) (b : Block) (i f : ℕ)
    → scan_bits n idx found required b ≡ hit i f
    → i < idx + n
unfolding scan_bits
scan_bits-hit zero idx found required b i f e = cc
scan_bits-hit (suc n) idx found required b i f e =
    ground
      (arith, scan_bits-hit n (suc idx) (if is_zero idx b then suc found else 0) required b i f)

pub scan-at :
    (bs : List Block) (place found required q i f : ℕ)
    → scan place found required bs ≡ at q i f
    → i < 8
unfolding scan
scan-at [] place found required q i f e = cc
scan-at (b ∷ bs) place found required q i f e =
    stopped (scan_bits 8 0 found required b) refl e (λ g. scan-at bs (suc place) g required q i f)
  where
    stopped :
        (r : Scan)
        → scan_bits 8 0 found required b ≡ r
        → elim r [
          | hit idx found' ↦ at place idx found'
          | miss found' ↦ scan (suc place) found' required bs
        ]
          ≡ at q i f
        → ((g : ℕ) → scan (suc place) g required bs ≡ at q i f → i < 8)
        → i < 8
    stopped (hit idx g) r e ih = ground (arith, scan_bits-hit 8 0 found required b idx g r)
    stopped (miss g) r e ih = ih g e

-- Where the search stops in a block with a run of free bits that lies in it, `malloc` of the block
-- allocator sets the bits of the size's pages before the last of the run, and no other, and returns
-- the address of the first of them.
pub malloc-hit :
    (fuel size place idx found : ℕ) (h : Heap)
    → scan 1 0 (2 + round_size size / page_size) h.blocks ≡ at place idx found
    → found ≤ suc idx
    → (b : Block) × (malloc fuel size h
        ≡ ok
            (address (block_at place h).addr (idx - round_size size / page_size))
            (with_block place b h))
      × (b.addr ≡ (block_at place h).addr)
      × ((i : ℕ)
          → b.bitmap i
            ≡ with_pages (idx - round_size size / page_size) idx (block_at place h).bitmap i)
unfolding malloc take_pages
malloc-hit fuel size place idx found h e inside =
    let pages = round_size size / page_size in
    let whole : found ≡ 2 + pages =
      (subst (Found (flat h.blocks) (8 * length h.blocks) (2 + pages)) (ap bit_of e)
        (scan-Found (2 + pages) h.blocks (omega arith))).0 in
    let small = scan-at h.blocks 1 0 (2 + pages) place idx found e in
    let low = idx - pages in
    let b = block_at place h in
    let (lands, stays, sets) = set_back_lem pages low b (omega arith) in
    let few : found - 2 ≡ pages = omega arith in
    let ends : low + pages ≡ idx = omega arith in
    let taken = (set_back pages (low + pages) b).1 in
    (
      taken,
      rw (e, malloc)
          (ap (λ n. take_pages n idx place h) few
            ∙ ap (λ i. take_pages pages i place h) (sym ends)
            ∙ ap (λ i. ok (address taken.addr i) (with_block place taken h)) lands
            ∙ ap (λ a. ok (address a low) (with_block place taken h)) stays),
      stays,
      λ i. sets i ∙ ap (λ j. with_pages low j b.bitmap i) ends,
    )
