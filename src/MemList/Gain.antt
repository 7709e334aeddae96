-- ===== src/MemList/Gain.antt =====
-- New memory in pkg/libc_backends/lib/l4re_mem/mem_list.cc: `extend_mem` and the header that `malloc` makes there.
use kpr.Base.{ℕ, ◌+◌, ◌*◌, ◌<◌, ◌^◌, ◌≡◌, ◌≢◌, refl, ◌∙◌, List, ◌∷◌, some, arith, ◌∉◌}
use kpr.Env.{Grant, granted}
use kpr.MemList.State.{Ptr, null, ext_mem, header, Mem, ok, update, accessible, mapped}
use kpr.MemList.Ops.{Which, processes, holes, head_of, answer, extend_mem, align}
use kpr.MemList.Alloc.{init_block}
use kpr.MemList.Steps.{Live}
use kpr.MemList.Ring.{Ring-frame}
use kpr.MemList.Bounds.{align_bounds}
use kpr.MemList.Invariant.{IsList}
use kpr.MemList.Heap.{IsHeap}

module _ (s : Mem) (gs : List Grant) (a : ℕ) where
  abbrev pub mapped_more : Mem
  mapped_more = record s { grants = gs; regions = (a, ext_mem + header) ∷ s.regions }

  -- The new header is alone in its ring, with all of the memory.
  abbrev pub gained : Mem
  gained = record s {
    size = update s.size (align a) ext_mem;
    next = update s.next (align a) (align a);
    prev = update s.prev (align a) (align a);
    grants = gs;
    regions = (a, ext_mem + header) ∷ s.regions;
  }

  Live-more : (e : Ptr) → Live s e → Live gained e
  unfolding accessible mapped
  Live-more e l = ground arith

  -- A list without the new header lives on.
  pub IsList-gained :
      (w : Which) (zs : List Ptr) → align a ∉ zs → IsList w s zs → IsList w gained zs
  IsList-gained w zs out l = record {
    head = same_head w ∙ l.head;
    ring =
        Ring-frame s.next s.prev gained.next gained.prev zs (λ b m. ground arith)
          (λ b m. ground arith) l.ring;
    distinct = l.distinct;
    live = λ b m. Live-more b (l.live b m);
  }
    where
      same_head : (w : Which) → head_of w gained ≡ head_of w s
      same_head processes = refl
      same_head holes = refl

  pub IsHeap-gained :
      (ps hs : List Ptr) → align a ∉ ps → align a ∉ hs → IsHeap s ps hs → IsHeap gained ps hs
  IsHeap-gained ps hs p q h = record {
    in_use = IsList-gained processes ps p h.in_use;
    free = IsList-gained holes hs q h.free;
    apart = h.apart;
  }

  module _ (g : Grant) (next_grant : s.grants ≡ g ∷ gs) (there : granted g ≡ some a)
      (pos : a ≢ null) (low : a + 2 * header < 2 ^ 32) where
    pub extend_mem-ok : extend_mem s ≡ ok a mapped_more
    unfolding extend_mem
    extend_mem-ok = rw (next_grant, answer, there)

    pub Live-gained : Live gained (align a)
    unfolding accessible mapped
    Live-gained = ground (arith, align_bounds a)

    pub init_block-ok : init_block (align a) mapped_more ≡ ok tt gained
    unfolding init_block
    init_block-ok = ground (arith, Live-gained)
