-- ===== src/MemList/Grown.antt =====
-- `malloc` of pkg/libc_backends/lib/l4re_mem/mem_list.cc where it needs new memory: the whole call, and where it
-- goes wrong.
use kpr.Base.{
  ◌-◌, ℕ, ◌+◌, ◌*◌, ◌<◌, ◌≤◌, ◌^◌, ◌≡◌, ◌≢◌, refl, ◌∙◌, ap, true, false, List, [], ◌∷◌, some, none,
  arith, ◌∉◌, length,
}
use kpr.Env.{Grant, granted}
use kpr.MemList.State.{Ptr, null, ext_mem, header, Mem, ok, fault, accessible}
use kpr.MemList.Ops.{align, split}
use kpr.MemList.Alloc.{malloc, round_size, take_extension}
use kpr.MemList.Steps.{Ends, rest_at}
use kpr.MemList.Heap.{IsHeap}
use kpr.MemList.Cut.{Room}
use kpr.MemList.Find.{first_fit, find-first_fit}
use kpr.MemList.Take.{splits, malloc-exhausted, holes_head-ne_null}
use kpr.MemList.Gain.{gained, extend_mem-ok, init_block-ok, Live-gained}
use kpr.MemList.Extend.{Extended, take_extension-Extended}

module _ (s : Mem) (g : Grant) (gs : List Grant) (a : ℕ) (next_grant : s.grants ≡ g ∷ gs)
    (there : granted g ≡ some a) (pos : a ≢ null) (low : a + 2 * header < 2 ^ 32) where
  pub malloc-extends :
      (ps hs : List Ptr) (requested fuel : ℕ)
      → IsHeap s ps hs
      → hs ≢ []
      → first_fit s.size (round_size requested) hs ≡ none
      → length hs ≤ fuel
      → malloc fuel requested s ≡ take_extension fuel (round_size requested) s
  malloc-extends ps [] requested fuel h some_hole fit enough = absurd (some_hole refl)
  malloc-extends ps (x ∷ xs) requested fuel h some_hole fit enough =
      malloc-exhausted s requested fuel (holes_head-ne_null s x xs h.free)
        (find-first_fit s x xs (round_size requested) fuel h.free enough ∙ ap (λ o. ok o s) fit)

  -- From a well-formed heap with blocks in use and holes, none of which is large enough, with memory
  -- granted at an address that is not NULL and not at the end of the address space, a request that
  -- fits into it, a new header outside both lists, and, if the new block is split, with the rest's
  -- header in mapped memory and outside both lists, and fuel for both list lengths: `malloc` returns
  -- the address behind the new header, the new block is in use at the place of its address and large
  -- enough, what was cut off stands among the holes at the place of its size, and both lists are again
  -- disjoint rings.
  pub malloc-Extended :
      (ps hs : List Ptr) (requested fuel : ℕ)
      → IsHeap s ps hs
      → ps ≢ []
      → hs ≢ []
      → first_fit s.size (round_size requested) hs ≡ none
      → round_size requested ≤ ext_mem
      → align a ∉ ps
      → align a ∉ hs
      → (splits (gained s gs a) (align a) (round_size requested) ≡ true
          → Room (gained s gs a) ps (align a ∷ hs) (align a) (round_size requested))
      → length ps ≤ fuel
      → length hs ≤ fuel
      → Ends
          (Extended (gained s gs a) ps hs (align a) (round_size requested))
          (malloc fuel requested s)
  malloc-Extended ps hs requested fuel h some_process some_hole fit fits p_out h_out room p q =
      rw (malloc-extends ps hs requested fuel h some_hole fit q) (
        take_extension-Extended s g gs a next_grant there pos low ps hs (round_size requested) fuel
          h p_out h_out some_process some_hole p q fits room)

  split-fault :
      (size : ℕ)
      → accessible (gained s gs a).regions (rest_at (align a) size) ≡ false
      → split (align a) size (gained s gs a) ≡ fault
  unfolding split
  split-fault size outside = rw (Live-gained s gs a g next_grant there pos low, outside)

  -- From a well-formed heap with holes, none of which is large enough, with fuel for them and memory
  -- granted at an address that is not NULL and not at the end of the address space: for a size above
  -- EXT_MEM whose rest would have its header outside of mapped memory, `malloc` faults.
  pub malloc-too_large :
      (ps hs : List Ptr) (requested fuel : ℕ)
      → IsHeap s ps hs
      → hs ≢ []
      → first_fit s.size (round_size requested) hs ≡ none
      → ext_mem < round_size requested
      → round_size requested < 2 ^ 32 - 12
      → length hs ≤ fuel
      → accessible (gained s gs a).regions (rest_at (align a) (round_size requested)) ≡ false
      → malloc fuel requested s ≡ fault
  unfolding take_extension
  malloc-too_large ps hs requested fuel h some_hole fit large small enough outside =
      let wraps : splits (gained s gs a) (align a) (round_size requested) ≡ true = ground arith in
      rw (
        malloc-extends ps hs requested fuel h some_hole fit enough,
        extend_mem-ok s gs a g next_grant there pos low,
        init_block-ok s gs a g next_grant there pos low,
        Live-gained s gs a g next_grant there pos low,
        wraps,
        split-fault (round_size requested) outside,
      )
