-- ===== src/MemList/Tests.antt =====
-- Runs of pkg/libc_backends/lib/l4re_mem/mem_list.cc on concrete heaps.
use kpr.Base.{
  ℕ, ◌≡◌, refl, true, List, [], ◌∷◌, arith, All_of_mem, Bool-cases, inl, inr, ltb, ◌==◌,
  if◌then◌else◌,
}
use kpr.Env.{granted}
use kpr.MemList.State.{Ptr, null, Mem, Run, ok, fault, accessible, mapped}
use kpr.MemList.Ops.{
  processes, extend_mem, align, split, walk, link_before, exchange, settle, insert_into, unlink,
  remove_from,
}
use kpr.MemList.Alloc.{
  round_size, init_block, init_holes, find, add_alone, add_to, take_hole, malloc,
}
use kpr.MemList.Steps.{Live, Ends}
use kpr.MemList.Heap.{IsHeap}
use kpr.MemList.Take.{replace, sizes_after}
use kpr.MemList.Insert.{insert_sorted}
use kpr.MemList.Headers.{Separate, Separate-fewer}
use kpr.MemList.Separated.{Handed, malloc-Handed}
use kpr.MemList.Links.{Linked, insert_into-Linked, remove_from-Linked}
use kpr.MemList.Find.{first_fit}

-- The environment grants memory at 4096, and nothing more.
abbrev start : Mem
start = record {
  size = λ _. 0;
  prev = λ _. null;
  next = λ _. null;
  processes_head = null;
  holes_head = null;
  regions = [];
  grants = record { cap_is_valid = true; alloc_err = 0; attach_err = 0; addr = 4096 } ∷ [];
}

abbrev summary : Run Ptr → List ℕ
summary (ok a s) =
    a ∷ s.processes_head ∷ s.holes_head ∷ s.size s.processes_head ∷ s.size s.holes_head ∷ []
summary fault = []
summary _ = 1 ∷ []

-- The first request for 10 bytes: 12 bytes at 4112, and the rest behind a header at 4124.
first_malloc : summary (malloc 9 10 start) ≡ 4112 ∷ 4100 ∷ 4124 ∷ 12 ∷ 32744 ∷ []
unfolding malloc round_size init_holes init_block find take_hole add_to add_alone extend_mem granted
    align split remove_from unlink accessible mapped insert_into walk link_before settle exchange
first_malloc = refl

-- Three blocks of 12, 20 and 12 bytes in use, and one hole.
abbrev heap : Mem
heap = record {
  size = λ a. if a == 4124 then 20 else (if a == 4180 then 32688 else 12);
  prev = λ a.
      if a == 4124 then 4100 else (if a == 4156 then 4124 else (if a == 4100 then 4156 else 4180));
  next = λ a.
      if a == 4100 then 4124 else (if a == 4124 then 4156 else (if a == 4156 then 4100 else 4180));
  processes_head = 4100;
  holes_head = 4180;
  regions = (4096, 32780) ∷ [];
  grants = [];
}

heap-IsHeap : IsHeap heap (4100 ∷ 4124 ∷ 4156 ∷ []) (4180 ∷ [])
unfolding accessible mapped
heap-IsHeap = record {
  in_use = record {
    head = refl;
    ring = (refl, refl, (refl, refl, (refl, refl)));
    distinct = λ a. ground arith;
    live = λ a m. All_of_mem (Live heap) a (4100 ∷ 4124 ∷ 4156 ∷ []) (refl, (refl, (refl, tt))) m;
  };
  free = record {
    head = refl;
    ring = (refl, refl);
    distinct = λ a. ground arith;
    live = λ a m. All_of_mem (Live heap) a (4180 ∷ []) (refl, tt) m;
  };
  apart = λ a. ground arith;
}

heap-Separate : Separate (4100 ∷ 4124 ∷ 4156 ∷ []) (4180 ∷ [])
heap-Separate a b h k ne = elim (Bool-cases (ltb a b)) [
  | inl less ↦ inl (ground arith)
  | inr more ↦ inr (ground arith)
]

malloc-Handed_example :
    Ends
      (Handed (4100 ∷ 4124 ∷ 4156 ∷ 4180 ∷ []) (4204 ∷ []) (sizes_after heap 4180 12) 4180 12)
      (malloc 5 10 heap)
unfolding round_size first_fit accessible mapped align insert_sorted replace
malloc-Handed_example =
    malloc-Handed heap (4100 ∷ 4124 ∷ 4156 ∷ []) (4180 ∷ []) 10 5 4180 heap-IsHeap heap-Separate
      refl (λ _. (refl, λ a h. inr (ground arith))) (omega arith) (omega arith)

-- The hole joins the blocks in use.
insert_into-Linked_example :
    Ends
      (λ _ t. Linked processes (4100 ∷ 4124 ∷ 4156 ∷ 4180 ∷ []) [] heap t)
      (insert_into processes 5 4180 heap)
unfolding accessible mapped insert_sorted
insert_into-Linked_example =
    insert_into-Linked processes heap 4180 [] 5 (4100 ∷ 4124 ∷ 4156 ∷ []) heap-IsHeap.in_use
      (λ e. cc)
      (Separate-fewer (4100 ∷ 4124 ∷ 4156 ∷ []) (4180 ∷ []) (4100 ∷ 4124 ∷ 4156 ∷ []) []
        heap-Separate (λ a h. omega (arith, h)))
      (λ a m. absurd (omega arith)) (λ a h. inr (ground arith)) refl (omega arith)

remove_from-Linked_example :
    Ends
      (λ _ t.
        Linked processes (4100 ∷ 4156 ∷ []) (4180 ∷ []) heap t
        × (t.size 4124 ≡ 20)
        × (t.next 4124 ≡ null)
        × (t.prev 4124 ≡ null))
      (remove_from processes 4124 heap)
remove_from-Linked_example =
    remove_from-Linked processes heap 4124 (4180 ∷ []) (4100 ∷ []) (4156 ∷ []) heap-IsHeap.in_use
      heap-Separate (λ a m. ground arith)

-- A zeroed memory holds a header's zeros at 4096, and its size is written.
abbrev zeros : Mem
zeros = record heap { size = λ _. 0; prev = λ _. 0; next = λ _. 0 }
