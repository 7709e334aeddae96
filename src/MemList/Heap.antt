-- ===== src/MemList/Heap.antt =====
-- Both lists of pkg/libc_backends/lib/l4re_mem/mem_list.cc together.
use kpr.Base.{◌≡◌, ℕ, ◌+◌, ◌≤◌, ◌∙◌, List, ◌∈◌, ◌∉◌, count}
use kpr.MemList.State.{Ptr, Mem}
use kpr.MemList.Ops.{head_of, Which, processes, holes}
use kpr.MemList.Ring.{Ring-frame}
use kpr.MemList.Invariant.{IsList, SameBut, other}
use kpr.MemList.Insert.{precedes, insert_sorted}

-- `ps` are the blocks in use, `hs` the free ones, each in the order of its list.
pub record IsHeap (s : Mem) (ps hs : List Ptr) : Type 0 where
  pub in_use : IsList processes s ps
  pub free : IsList holes s hs
  pub apart : (a : Ptr) → count a ps + count a hs ≤ 1

-- A list lives on where its head and the links of its headers do.
pub IsList-frame :
    (w : Which) (s t : Mem) (zs : List Ptr)
    → IsList w s zs
    → t.regions ≡ s.regions
    → head_of w t ≡ head_of w s
    → ((a : Ptr) → a ∈ zs → t.next a ≡ s.next a)
    → ((a : Ptr) → a ∈ zs → t.prev a ≡ s.prev a)
    → IsList w t zs
IsList-frame w s t zs l regions head next prev = record {
  head = head ∙ l.head;
  ring = Ring-frame s.next s.prev t.next t.prev zs next prev l.ring;
  distinct = l.distinct;
  live = λ a m. rw regions (l.live a m);
}

-- A change of one list leaves the other as it is.
pub IsList-SameBut :
    (w : Which) (s t : Mem) (xs zs : List Ptr)
    → IsList (other w) s zs
    → SameBut w xs s t
    → ((a : Ptr) → a ∈ zs → a ∉ xs)
    → IsList (other w) t zs
IsList-SameBut w s t xs zs l same out =
    IsList-frame (other w) s t zs l same.regions same.head (λ a m. same.next a (out a m))
      (λ a m. same.prev a (out a m))

-- The order of each list, as the loops of the insertions compare.
abbrev pub by_address : Ptr → List Ptr → List Ptr
by_address e = insert_sorted (λ x. precedes processes (λ a. a) x e) e

abbrev pub by_size : (Ptr → ℕ) → Ptr → List Ptr → List Ptr
by_size size e = insert_sorted (λ x. precedes holes size x e) e
