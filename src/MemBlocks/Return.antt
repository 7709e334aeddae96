-- ===== src/MemBlocks/Return.antt =====
-- What `free` of pkg/libc_backends/lib/l4re_mem/mem_vFail.cc does with what `malloc` took, while there is one block.
use kpr.Base.{
  ℕ, zero, suc, ◌+◌, ◌*◌, ◌/◌, ◌^◌, ◌<◌, ◌≤◌, ◌≡◌, ap, subst, ◌∙◌, true, false, ◌&&◌, some, List,
  ◌∷◌, ltb, leb, ◌==◌, if◌then◌else◌, Bool-cases, inl, inr, arith, add32,
}
use kpr.Env.{Grant, granted}
use kpr.MemBlocks.Blocks.{Block, inc_idx, clear_bit, clear_bits}
use kpr.MemBlocks.Index.{clear_bits_lem, IsRun}
use kpr.MemBlocks.Alloc.{
  Heap, Run, ok, fault, address, elem_size, page_size, set_back, take_pages, nth, put, round_size,
  malloc, index_of, free_in, is_in, free_from, free,
}
use kpr.MemBlocks.Pages.{set_back_lem, clear_bits_more, empty, single, malloc-empty}

-- The block and the addresses that `free` compares with lie below the end of the address space.
abbrev pub Below : Block → Type 0
Below b = b.addr + elem_size * (1 + 8 * page_size) < 2 ^ 32

index_of-address :
    (n k idx : ℕ) (b : Block)
    → Below b
    → k ≤ idx
    → idx < k + n
    → k + n ≤ 8
    → index_of n k (address b.addr idx) b ≡ idx
unfolding index_of
index_of-address zero k idx b low l u top = absurd (omega arith)
index_of-address (suc n) k idx b low l u top = elim (Bool-cases (idx == k)) [
  | inl here ↦ ground (arith)
  | inr later ↦ ground (arith, index_of-address n (suc k) idx b)
]

clear_bits-addr : (n idx : ℕ) (b b' : Block) → clear_bits n idx b ≡ some b' → b'.addr ≡ b.addr
unfolding clear_bits clear_bit
clear_bits-addr zero idx b b' e = cc
clear_bits-addr (suc n) idx b b' e =
    ground (arith, clear_bits-addr n (inc_idx idx 1) (clear_bit idx b) b')

-- The end of `free`, with the bits of the block already clear.
abbrev pub detaching : Heap → List Grant → (runner addr : ℕ) → Block → Run (Unit {0})
detaching h gs runner addr b =
    if h.detaches runner addr
    then fault
    else ok tt (record (single h b gs) { detached = addr ∷ h.detached })

module _ (h : Heap) (gs : List Grant) where
  -- `free` of the address of a run of pages in the only block.
  free-single :
      (fuel pages idx : ℕ) (b : Block)
      → Below b
      → IsRun b idx pages
      → (b' : Block) × (free (suc fuel) (address b.addr idx) (single h b gs)
          ≡ detaching h gs b.addr (address b.addr idx) b')
        × (b'.addr ≡ b.addr)
        × ((i : ℕ) → b'.bitmap i ≡ (if leb idx i && ltb i (idx + pages) then false else b.bitmap i))
  unfolding free free_from free_in is_in nth put
  free-single fuel pages idx b low run =
      let (b', ran, cleared) = clear_bits_lem pages idx b run in
      let cleared_all : clear_bits 9 idx b ≡ some b' =
        clear_bits_more (suc pages) 9 idx b b' ran (omega (arith, run.inside)) in
      let addr = address b.addr idx in
      let at_idx : index_of 8 0 addr b ≡ idx =
        index_of-address 8 0 idx b low (omega arith) (omega (arith, run.inside)) (omega arith) in
      let behind : ltb addr (add32 b.addr elem_size) ≡ false = ground (arith, run.inside) in
      let not_before : ltb addr b.addr ≡ false = ground (arith, run.inside) in
      let before_end : ltb addr (add32 b.addr (elem_size * (8 * page_size))) ≡ true =
        ground (arith, run.inside) in
      let small : leb 8 idx ≡ false = ground (arith, run.inside) in
      (
        b',
        rw (behind, not_before, before_end, at_idx, small, cleared_all),
        clear_bits-addr (suc pages) idx b b' ran,
        cleared,
      )

-- With no block yet and memory granted that `free` can address, for a size of at most six pages,
-- `malloc` of the block allocator returns the address of the second page, and `free` of that address
-- faults after `detach` if `detach` takes away the block's memory; if it does not, `free` returns, all
-- bits of the one block are clear again, and the address was given to `detach`.
pub free_detaches :
    (h : Heap) (g : Grant) (gs : List Grant) (a size fuel fuel' : ℕ)
    → granted g ≡ some a
    → a + elem_size * (1 + 8 * page_size) < 2 ^ 32
    → round_size size / page_size ≤ 6
    → (h' : Heap) × (malloc (suc fuel) size (empty h (g ∷ gs)) ≡ ok (address a 1) h')
      × (b : Block) × (free (suc fuel') (address a 1) h' ≡ (
          if h.detaches a (address a 1)
          then fault
          else ok tt (record (single h b gs) { detached = address a 1 ∷ h.detached })))
      × (b.addr ≡ a)
      × ((i : ℕ) → b.bitmap i ≡ false)
unfolding take_pages nth put
free_detaches h g gs a size fuel fuel' there low few =
    let pages = round_size size / page_size in
    let fresh : Block = record { addr = a; bitmap = λ _. false } in
    let taken = (set_back pages (1 + pages) fresh).1 in
    let (lands, stays, sets) = set_back_lem pages 1 fresh (omega arith) in
    let shift : suc pages ≡ 1 + pages = omega arith in
    let (b, ran, same, cleared) =
      free-single h gs fuel' pages 1 taken (omega (arith, stays)) (record {
        inside = omega arith;
        set = λ i l u. ground (arith, sets i);
        ends = ground (arith, sets (1 + pages));
      }) in
    (
      single h taken gs,
      malloc-empty h g gs a there fuel size few
          ∙ ap (λ i. take_pages pages i 1 (single h fresh gs)) shift
          ∙ ap (λ i. ok (address taken.addr i) (single h taken gs)) lands
          ∙ ap (λ x. ok (address x 1) (single h taken gs)) stays,
      b,
      subst
          (λ x.
            free (suc fuel') (address x 1) (single h taken gs) ≡ detaching h gs x (address x 1) b)
          stays ran,
      same ∙ stays,
      λ i. ground (arith, cleared i, sets i),
    )
