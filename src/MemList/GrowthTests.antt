-- ===== src/MemList/GrowthTests.antt =====
-- Runs of `malloc` of pkg/libc_backends/lib/l4re_mem/mem_list.cc that need new memory.
use kpr.Base.{
  true, ℕ, ◌≡◌, refl, [], ◌∷◌, arith, All_of_mem, Bool-cases, inl, inr, ltb, ◌==◌, if◌then◌else◌,
}
use kpr.Env.{Grant, granted}
use kpr.MemList.State.{Ptr, null, Mem, fault, accessible, mapped}
use kpr.MemList.Ops.{align}
use kpr.MemList.Alloc.{round_size, malloc}
use kpr.MemList.Steps.{Live, Ends}
use kpr.MemList.Heap.{IsHeap}
use kpr.MemList.Find.{first_fit}
use kpr.MemList.Gain.{gained}
use kpr.MemList.Extend.{sizes_of}
use kpr.MemList.Insert.{insert_sorted}
use kpr.MemList.Spaced.{Held}
use kpr.MemList.Headers.{Separate}
use kpr.MemList.Separated.{Handed, malloc-Handed_new}
use kpr.MemList.Grown.{malloc-too_large}
use kpr.MemList.Unowned.{malloc-unowned}

abbrev grant_at : ℕ → Grant
grant_at a = record { cap_is_valid = true; alloc_err = 0; attach_err = 0; addr = a }

-- One block in use, of 12 bytes, and a hole of 20 bytes behind it.
abbrev full : Mem
full = record {
  size = λ a. if a == 4100 then 12 else 20;
  prev = λ a. a;
  next = λ a. a;
  processes_head = 4100;
  holes_head = 4124;
  regions = (4096, 32780) ∷ [];
  grants = grant_at 65536 ∷ [];
}

full-IsHeap : IsHeap full (4100 ∷ []) (4124 ∷ [])
unfolding accessible mapped
full-IsHeap = record {
  in_use = record {
    head = refl;
    ring = (refl, refl);
    distinct = λ a. ground arith;
    live = λ a m. All_of_mem (Live full) a (4100 ∷ []) (refl, tt) m;
  };
  free = record {
    head = refl;
    ring = (refl, refl);
    distinct = λ a. ground arith;
    live = λ a m. All_of_mem (Live full) a (4124 ∷ []) (refl, tt) m;
  };
  apart = λ a. ground arith;
}

full-Separate : Separate (4100 ∷ []) (4124 ∷ [])
full-Separate a b h k ne = elim (Bool-cases (ltb a b)) [
  | inl less ↦ inl (ground arith)
  | inr more ↦ inr (ground arith)
]

malloc-Handed_new_example :
    Ends
      (λ p t.
        Handed
          (4100 ∷ 65540 ∷ [])
          (4124 ∷ 65652 ∷ [])
          (sizes_of (gained full [] 65536) 65540 100)
          65540
          100
          p
          t
        × ((b : Ptr) → Held (4100 ∷ []) (4124 ∷ []) b → t.size b ≡ full.size b))
      (malloc 1 100 full)
unfolding granted align round_size accessible mapped first_fit insert_sorted
malloc-Handed_new_example =
    malloc-Handed_new full (grant_at 65536) [] 65536 refl refl (λ e. omega arith) (omega arith)
      (4100 ∷ []) (4124 ∷ []) 100 1 full-IsHeap full-Separate (λ e. cc) (λ e. cc) refl (omega arith)
      (λ a h. inr (ground arith)) (λ _. (refl, λ a h. inr (ground arith))) (omega arith)
      (omega arith)

malloc-too_large_example : malloc 1 40000 full ≡ fault
unfolding granted align round_size accessible mapped first_fit
malloc-too_large_example =
    malloc-too_large full (grant_at 65536) [] 65536 refl refl (λ e. omega arith) (omega arith)
      (4100 ∷ []) (4124 ∷ []) 40000 1 full-IsHeap (λ e. cc) refl (omega arith) (omega arith)
      (omega arith) refl

-- The same hole, and no block in use.
abbrev unowned : Mem
unowned = record full { processes_head = null }

unowned-IsHeap : IsHeap unowned [] (4124 ∷ [])
unfolding accessible mapped
unowned-IsHeap = record {
  in_use = record {
    head = refl;
    ring = tt;
    distinct = λ a. omega arith;
    live = λ a m. absurd (omega arith);
  };
  free = record {
    head = refl;
    ring = (refl, refl);
    distinct = λ a. ground arith;
    live = λ a m. All_of_mem (Live unowned) a (4124 ∷ []) (refl, tt) m;
  };
  apart = λ a. ground arith;
}

malloc-unowned_example : malloc 1 100 unowned ≡ fault
unfolding granted align round_size accessible mapped first_fit
malloc-unowned_example =
    malloc-unowned unowned (grant_at 65536) [] 65536 refl refl (λ e. omega arith) (omega arith)
      (4124 ∷ []) 100 0 unowned-IsHeap (λ e. cc) refl refl (λ _. (refl, refl, refl)) (omega arith)
