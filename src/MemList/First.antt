-- ===== src/MemList/First.antt =====
-- `malloc` of pkg/libc_backends/lib/l4re_mem/mem_list.cc where there is no hole yet: new memory becomes one.
use kpr.Base.{
  ℕ, ◌+◌, ◌*◌, ◌<◌, ◌≤◌, ◌^◌, ◌≡◌, ◌≢◌, refl, sym, subst, true, false, List, [], ◌∷◌, some, arith,
  ◌==◌, ◌∈◌, ◌∉◌, length,
}
use kpr.Env.{Grant, granted}
use kpr.MemList.State.{Ptr, null, ext_mem, header, Mem, ok}
use kpr.MemList.Ops.{processes, align}
use kpr.MemList.Alloc.{init_block, init_holes, malloc, round_size}
use kpr.MemList.Steps.{Live, Live-ne_null, Ends}
use kpr.MemList.Heap.{IsHeap, IsList-frame}
use kpr.MemList.Cut.{Room}
use kpr.MemList.Find.{first_fit}
use kpr.MemList.Take.{Taken, splits, malloc-Taken}
use kpr.MemList.Gain.{gained, extend_mem-ok, Live-gained, IsList-gained}

-- The new memory is the one hole.
abbrev pub first_hole : Mem → List Grant → ℕ → Mem
first_hole s gs a = record (gained s gs a) { holes_head = align a }

module _ (s : Mem) (g : Grant) (gs : List Grant) (a : ℕ) (next_grant : s.grants ≡ g ∷ gs)
    (there : granted g ≡ some a) (pos : a ≢ null) (low : a + 2 * header < 2 ^ 32) where
  init_holes-ok : init_holes s ≡ ok tt (first_hole s gs a)
  unfolding init_holes init_block
  init_holes-ok =
      rw (extend_mem-ok s gs a g next_grant there pos low)
        (ground (arith, Live-gained s gs a g next_grant there pos low))

  first_hole-IsHeap :
      (ps : List Ptr) → IsHeap s ps [] → align a ∉ ps → IsHeap (first_hole s gs a) ps (align a ∷ [])
  first_hole-IsHeap ps h out = record {
    in_use =
        IsList-frame processes (gained s gs a) (first_hole s gs a) ps
          (IsList-gained s gs a processes ps out h.in_use) refl refl (λ b m. refl) (λ b m. refl);
    free = record {
      head = refl;
      ring = (ground arith, ground arith);
      distinct = λ b. ground arith;
      live = λ b m. subst (Live (first_hole s gs a)) (sym (mem-one b m)) there_live;
    };
    apart = λ b. ground (arith, out, h.apart b);
  }
    where
      mem-one : (b : Ptr) → b ∈ (align a ∷ []) → b ≡ align a
      mem-one b m = ground arith

      there_live : Live (first_hole s gs a) (align a)
      there_live = Live-gained s gs a g next_grant there pos low

  malloc-first :
      (requested fuel : ℕ)
      → s.holes_head ≡ null
      → malloc fuel requested s ≡ malloc fuel requested (first_hole s gs a)
  unfolding malloc
  malloc-first requested fuel none_yet =
      let empty : (s.holes_head == null) ≡ true = ground arith in
      let filled : (align a == null) ≡ false = ground (
        arith,
        Live-ne_null (gained s gs a) (align a) (Live-gained s gs a g next_grant there pos low),
      ) in
      rw (empty, filled, init_holes-ok)

  -- From a well-formed heap with no hole, with memory granted at an address that is not NULL and not
  -- at the end of the address space, a request that fits into it, a new header outside the blocks in
  -- use, and, if the new block is split, with the rest's header in mapped memory and outside both
  -- lists, and fuel for the blocks in use and one round: `malloc` makes the new memory the one hole
  -- and then takes from it as from any hole.
  pub malloc-first_Taken :
      (ps : List Ptr) (requested fuel : ℕ)
      → IsHeap s ps []
      → align a ∉ ps
      → round_size requested ≤ ext_mem
      → (splits (first_hole s gs a) (align a) (round_size requested) ≡ true
          → Room (first_hole s gs a) ps (align a ∷ []) (align a) (round_size requested))
      → length ps ≤ fuel
      → 0 < fuel
      → Ends
          (Taken (first_hole s gs a) ps (align a ∷ []) (align a) (round_size requested))
          (malloc fuel requested s)
  unfolding first_fit
  malloc-first_Taken ps requested fuel h out fits room p q =
      rw (malloc-first requested fuel h.free.head) (
        malloc-Taken (first_hole s gs a) ps (align a ∷ []) requested fuel (align a)
          (first_hole-IsHeap ps h out) first_fits room p (omega arith))
    where
      first_fits :
          first_fit (first_hole s gs a).size (round_size requested) (align a ∷ []) ≡ some (align a)
      first_fits = ground arith
