-- ===== src/MemList/Free.antt =====
-- `free` of pkg/libc_backends/lib/l4re_mem/mem_list.cc.
use kpr.Base.{
  ℕ, ◌+◌, ◌<◌, ◌≤◌, ◌^◌, ◌≡◌, List, ◌∷◌, ◌++◌, arith, count-append, length, add32, sub32,
}
use kpr.MemList.State.{Ptr, header, Mem}
use kpr.MemList.Ops.{processes, holes}
use kpr.MemList.Steps.{Ends, Ends-mono}
use kpr.MemList.Insert.{precedes, count-insert_sorted}
use kpr.MemList.Heap.{IsHeap, by_size}
use kpr.MemList.Alloc.{free}
use kpr.MemList.Move.{Moved, move-Moved}

pub sub32-add32 : (e : ℕ) → e + header < 2 ^ 32 → sub32 (add32 e header) header ≡ e
sub32-add32 e h = omega arith

-- What `free` leaves: the block has moved from the blocks in use to the place that its size has among
-- the holes, and no size, region or grant has changed.
abbrev pub Freed : Mem → (ps hs : List Ptr) → Ptr → Mem → Type 0
Freed s ps hs e t =
    IsHeap t ps (by_size s.size e hs)
    × (t.size ≡ s.size)
    × (t.regions ≡ s.regions)
    × (t.grants ≡ s.grants)

module _ (s : Mem) (xs ys hs : List Ptr) (e : Ptr) (h : IsHeap s (xs ++ e ∷ ys) hs) where
  Moved-Freed : (t : Mem) → Moved processes s e (xs ++ ys) hs t → Freed s (xs ++ ys) hs e t
  Moved-Freed t m = (
    record {
      in_use = m.left;
      free = m.joined;
      apart = λ a. ground (
        arith,
        h.apart a,
        count-append a xs (e ∷ ys),
        count-append a xs ys,
        count-insert_sorted (λ x. precedes holes s.size x e) e hs a,
      );
    },
    m.size,
    m.regions,
    m.grants,
  )

  -- From a well-formed heap, with fuel for the length of the free list: `free` of the address behind
  -- the header of a block in use returns, the block has moved to the place of its size among the free
  -- blocks, both lists are again disjoint rings, and no size has changed.
  pub free-Freed :
      (fuel : ℕ)
      → e + header < 2 ^ 32
      → length hs ≤ fuel
      → Ends (λ _ t. Freed s (xs ++ ys) hs e t) (free fuel (add32 e header) s)
  unfolding free
  free-Freed fuel small enough = rw (sub32-add32 e small) (
      Ends-mono (move-Moved processes s e xs ys hs h.in_use h.free h.apart fuel enough)
        (λ _ t m. Moved-Freed t m))
