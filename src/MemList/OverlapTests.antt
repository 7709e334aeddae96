-- ===== src/MemList/OverlapTests.antt =====
-- A hole with a block in use directly behind it, in pkg/libc_backends/lib/l4re_mem/mem_list.cc.
use kpr.Base.{
  ℕ, ◌+◌, ◌≡◌, ◌≢◌, ◌⊎◌, inl, inr, refl, sym, ◌∙◌, [], ◌∷◌, arith, All_of_mem, ◌==◌, if◌then◌else◌,
  Bool-cases,
}
use kpr.MemList.State.{Mem, accessible, mapped}
use kpr.MemList.Alloc.{malloc, round_size}
use kpr.MemList.Steps.{Live, Ends}
use kpr.MemList.Heap.{IsHeap}
use kpr.MemList.Find.{first_fit}
use kpr.MemList.Spaced.{Held, Placed, Apart}
use kpr.MemList.Spread.{Covers}
use kpr.MemList.Laid.{Laid}
use kpr.MemList.Overlap.{Shared, malloc-Shared}

-- A hole of 44 bytes, and behind it a block in use of 12.
abbrev heap : Mem
heap = record {
  size = λ a. if a == 4100 then 44 else 12;
  prev = λ a. a;
  next = λ a. a;
  processes_head = 4156;
  holes_head = 4100;
  regions = (4096, 100) ∷ [];
  grants = [];
}

heap-IsHeap : IsHeap heap (4156 ∷ []) (4100 ∷ [])
unfolding accessible mapped
heap-IsHeap = record {
  in_use = record {
    head = refl;
    ring = (refl, refl);
    distinct = λ a. ground arith;
    live = λ a m. All_of_mem (Live heap) a (4156 ∷ []) (refl, tt) m;
  };
  free = record {
    head = refl;
    ring = (refl, refl);
    distinct = λ a. ground arith;
    live = λ a m. All_of_mem (Live heap) a (4100 ∷ []) (refl, tt) m;
  };
  apart = λ a. ground arith;
}

two : (a : ℕ) → Held (4156 ∷ []) (4100 ∷ []) a → (a ≡ 4100) ⊎ (a ≡ 4156)
two a h = elim (Bool-cases (a == 4100)) [ inl e ↦ inl (ground arith) | inr e ↦ inr (ground arith) ]

placed : (a : ℕ) → (a ≡ 4100) ⊎ (a ≡ 4156) → Placed heap.size a
placed a (inl e) = rw e (record { aligned = refl; whole = refl; low = omega arith })
placed a (inr e) = rw e (record { aligned = refl; whole = refl; low = omega arith })

apart : (a b : ℕ) → (a ≡ 4100) ⊎ (a ≡ 4156) → (b ≡ 4100) ⊎ (b ≡ 4156) → a ≢ b → Apart heap.size a b
apart a b (inl e) (inl e') ne = absurd (ne (e ∙ sym e'))
apart a b (inl e) (inr e') ne = rw (e, e') (inl (omega arith))
apart a b (inr e) (inl e') ne = rw (e, e') (inr (omega arith))
apart a b (inr e) (inr e') ne = absurd (ne (e ∙ sym e'))

backed : (a : ℕ) → (a ≡ 4100) ⊎ (a ≡ 4156) → Covers heap.regions a (heap.size a + 8)
backed a (inl e) = rw e (inl (omega arith, omega arith))
backed a (inr e) = rw e (inl (omega arith, omega arith))

heap-Laid : Laid heap (4156 ∷ []) (4100 ∷ [])
heap-Laid = record {
  heap = heap-IsHeap;
  ascending = (tt, tt);
  spread = record {
    spaced = record {
      placed = λ a h. placed a (two a h);
      apart = λ a b h k ne. apart a b (two a h) (two b k) ne;
    };
    backed = λ a h. backed a (two a h);
  };
}

malloc-Shared_example :
    Ends (λ _ t. Shared heap (4156 ∷ []) (4100 ∷ []) 4100 8 4156 t) (malloc 1 8 heap)
unfolding round_size first_fit
malloc-Shared_example =
    malloc-Shared heap (4156 ∷ []) (4100 ∷ []) 8 1 4100 4156 heap-Laid refl refl (omega arith) refl
      (omega arith) (omega arith) (omega arith)
